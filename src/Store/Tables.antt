-- ===== src/Store/Tables.antt =====
-- The tables that internal/postgres reads and writes, with the constraints of its migrations, and a
-- transaction as InTx of db.go runs it. One statement is one function on the whole table; a
-- transaction is one step, since each locks the rows that it decides on.
use khel_arena.Prelude.{
  ℕ, ◌+◌, Bool, true, false, ◌&&◌, ◌||◌, not, Option, List, [], ◌∷◌, ℤ, pos, leb, leb_ℤ, ◌==◌,
  if◌then◌else◌, any, length,
}
use khel_arena.Domain.Errors.{Result, ok, err}
use khel_arena.Domain.Enums.{
  BookingStatus, is_pending, is_cancelled, is_no_show, is_live, is_esewa, is_khalti, is_verified,
}
use khel_arena.Domain.Slot.Interval.{overlaps, min_booking_duration, max_booking_duration}
use khel_arena.Domain.Slot.DayTime.{DayTime}
use khel_arena.Domain.Pricing.{PricingRule}
use khel_arena.Domain.Booking.{Booking, is_after}
use khel_arena.Domain.Payment.{Payment, is_some}
use khel_arena.Domain.Call.{Call}
use khel_arena.Domain.Text.{Text}

-- A row of `bookings`: the domain's booking, and the columns on its cancellation.
pub record BookingRow : Type 0 where
  pub booking : Booking
  pub open booking use *
  pub cancel_reason : Text
  pub cancelled_at : Option ℕ
  pub cancel_penalty : ℕ
  pub penalty_restored_at : Option ℕ

-- The standing columns of `users`.
pub record UserRow : Type 0 where
  pub id : ℕ
  pub user_score : ℕ
  pub booking_banned_until : Option ℕ

-- A court joined to its arena and its pricing rules: `CourtContext` of availability.go, and the owner
-- of the arena.
pub record CourtRow : Type 0 where
  pub id : ℕ
  pub owner_id : ℕ
  pub base_price_npr : ℤ
  pub is_active : Bool
  pub opens_at : DayTime
  pub closes_at : DayTime
  pub arena_active : Bool
  pub pricing_rules : List PricingRule

unfoldable pub is_bookable : CourtRow → Bool
is_bookable c = c.is_active && c.arena_active

pub record Db : Type 0 where
  pub bookings : List BookingRow
  pub payments : List Payment
  pub posts : List Call
  pub users : List UserRow
  pub courts : List CourtRow

-- A transaction: the result, and the tables that it leaves.
abbrev pub Tx : Type 0 → Type 0
Tx A = Db → Result A × Db

-- `InTx`: what fails is rolled back.
abbrev pub commit : {State A : Type 0} → State → Result A × State → Result A × State
commit db (ok a, db') = (ok a, db')
commit db (err e, db') = (err e, db)

abbrev pub in_tx : {State A : Type 0} → (State → Result A × State) → State → Result A × State
in_tx m db = commit db (m db)

-- `update ... set f where p`
abbrev pub update_where {ℓ} : {A : Type ℓ} → (A → Bool) → (A → A) → List A → List A
update_where p f [] = []
update_where p f (x ∷ xs) = (if p x then f x else x) ∷ update_where p f xs

-- The slots of two rows of one court that `no_double_booking` forbids to overlap.
unfoldable pub clash : BookingRow → BookingRow → Bool
unfolding is_live overlaps
clash a b =
    is_live a.status && is_live b.status && a.court_id == b.court_id && overlaps a.slot b.slot

-- The SQL function `booking_blocks_slot`.
unfoldable pub booking_blocks_slot : BookingStatus → Option ℕ → ℕ → Bool
booking_blocks_slot status hold now =
    if is_cancelled status || is_no_show status
    then false
    else if is_pending status
    then is_after hold now
    else true

-- The CHECK constraints of `bookings` on a row that is inserted.
unfoldable pub passes_checks : BookingRow → Bool
passes_checks r =
    leb_ℤ (pos 0) r.price_npr
    && leb (length r.note) 280
    && leb (r.slot.start + min_booking_duration) r.slot.end
    && leb r.slot.end (r.slot.start + max_booking_duration)
    && (not (is_pending r.status) || is_some r.hold_expires_at)

-- `exists (select 1 from payments p where p.booking_id = id and p.status = 'verified')`
abbrev verified_for : ℕ → Payment → Bool
verified_for id p = p.booking_id == id && is_verified p.status

unfoldable pub has_verified : List Payment → ℕ → Bool
has_verified payments id = any (verified_for id) payments

-- The same for a payment that a gateway settled.
abbrev verified_online_for : ℕ → Payment → Bool
verified_online_for id p = verified_for id p && (is_esewa p.provider || is_khalti p.provider)

unfoldable pub paid_online : List Payment → ℕ → Bool
paid_online payments id = any (verified_online_for id) payments
