-- ===== src/Service/Bookings.antt =====
-- BookingService of internal/service/booking.go. `now` is the service's clock and `db_now` the
-- database's.
pub mod Accepted
use khel_arena.Prelude.{
  ℕ, Bool, true, false, ◌&&◌, not, Option, none, some, List, ℤ, ◌==◌, if◌then◌else◌, find, filter,
  map,
}
use khel_arena.Domain.Errors.{
  Error, Result, ok, err, ◌>>=◌, ◌>>◌, refuse, invalid, unauthenticated, forbidden, not_found,
}
use khel_arena.Domain.Text.{Text}
use khel_arena.Domain.Slot.Clock.{Location}
use khel_arena.Domain.Slot.Interval.{Slot, new_slot, is_past}
use khel_arena.Domain.Slot.Opening.{within_operating_hours}
use khel_arena.Domain.Pricing.{Price, resolve_price}
use khel_arena.Domain.Booking.{Booking, CancelOutcome, new_hold, banned, cancel_reason}
use khel_arena.Store.Tables.{CourtRow, Db, Tx, is_bookable}
use khel_arena.Store.Bookings.{create_hold, booking_standing}
use khel_arena.Store.Cancellation

pub record CreateBookingInput : Type 0 where
  pub user_id : ℕ
  pub court_id : ℕ
  pub start : ℕ
  pub end : ℕ
  pub team_id : Option ℕ
  pub note : Text

pub record BookingService : Type 0 where
  pub loc : Location
  pub hold_window : ℤ

-- LoadCourtContext of internal/postgres/availability.go.
unfoldable pub load_court_context : Db → ℕ → Result CourtRow
load_court_context db court = elim (find (λ c. c.id == court) db.courts) [
  | none ↦ err (not_found "That court doesn't exist.")
  | some c ↦ ok c
]

-- `if refused { return e }`
abbrev pub refuse_if : Bool → Error → Result (Unit {0})
refuse_if true e = err e
refuse_if false e = ok tt

-- The part of Create that reads: every check, in order, and the hold that is to be written.
unfoldable pub plan : BookingService → CreateBookingInput → ℕ → ℕ → Db → Result Booking
plan s input now db_now db = do
  slot ← new_slot input.start input.end
  refuse_if (is_past slot now) (invalid "slot" "That slot has already started.")
  refuse_if (input.user_id == 0) (unauthenticated "Sign in to book a court.")
  standing ← booking_standing db input.user_id db_now
  refuse_if (banned standing now)
      (forbidden "Your user score is %d/100 after late cancellations, so you can't book until %s.")
  court ← load_court_context db input.court_id
  refuse_if (not (is_bookable court)) (not_found "That court is no longer available.")
  refuse_if (not (within_operating_hours slot court.opens_at court.closes_at s.loc))
      (invalid "slot" "%s is open from %s to %s.")
  let price = resolve_price court.base_price_npr court.pricing_rules slot s.loc
  new_hold input.court_id input.user_id slot price input.team_id input.note now s.hold_window

abbrev pub store_hold : ℕ → ℕ → Db → Result Booking → Result Booking × Db
store_hold id db_now db (ok b) = create_hold b id db_now db
store_hold id db_now db (err e) = (err e, db)

-- Create
unfoldable pub create : BookingService → CreateBookingInput → ℕ → ℕ → ℕ → Tx Booking
create s input id now db_now db = store_hold id db_now db (plan s input now db_now db)

-- Cancel
unfoldable pub cancel : (ℕ → ℕ) → ℕ → ℕ → Text → ℕ → Tx CancelOutcome
cancel ban_end booking user raw db_now db =
    if user == 0
    then (err (unauthenticated "Sign in to manage your bookings."), db)
    else elim (cancel_reason raw) [
      | err e ↦ (err e, db)
      | ok reason ↦ Cancellation.cancel ban_end booking user reason db_now db
    ]
