-- ===== src/Store/Cash.antt =====
-- The cash half of internal/postgres/payment.go: an hour booked to be paid at the venue, and what the
-- venue says of it.
use khel_arena.Prelude.{
  ℕ, Bool, ◌&&◌, ◌||◌, not, Option, none, some, List, [], ◌∷◌, pos, ltb, ltb_ℤ, ◌==◌, if◌then◌else◌,
  any, find,
}
use khel_arena.Domain.Errors.{Result, ok, err, not_found, conflict, internal}
use khel_arena.Domain.Enums.{
  BookingStatus, PaymentStatus, is_pending, is_confirmed, is_completed, is_cash, is_initiated,
  is_verified, is_failed, is_settled,
}
use khel_arena.Domain.Booking.{is_after}
use khel_arena.Domain.Payment.{Payment}
use khel_arena.Store.Tables.{BookingRow, Db, Tx, in_tx, update_where, clash}
use khel_arena.Store.Bookings.{with_status, find_booking}
use khel_arena.Store.Cancellation.{close_posts}
use khel_arena.Store.Sweeps.{is_hold_of}
use khel_arena.Store.Payments.{find_payment, owns_payment, already_paid}

-- The WHERE of confirmSQL: a hold that has not lapsed.
abbrev pub is_live_hold : ℕ → ℕ → BookingRow → Bool
is_live_hold booking now r =
    r.id == booking && is_pending r.status && is_after r.hold_expires_at now

abbrev pub is_other : ℕ → BookingRow → Bool
is_other booking r = not (r.id == booking)

-- Another live row overlaps the one that is confirmed, so that `no_double_booking` would fire.
abbrev pub excluded : List BookingRow → BookingRow → Bool
excluded rows r = any (λ x. is_other r.id x && clash r x) rows

-- What confirmCashBooking answers where it found no live hold to confirm.
unfoldable pub standing : Db → ℕ → Result (Unit {0})
standing db booking = elim (find_booking db.bookings booking) [
  | none ↦ err internal
  | some r ↦
      if is_confirmed r.status || is_completed r.status
      then ok tt
      else if is_pending r.status
      then err (conflict "This request lapsed when the game started.")
      else err (conflict "This booking was %s, so there is nothing to approve.")
]

unfoldable pub confirm_cash_booking : ℕ → ℕ → Tx (Unit {0})
confirm_cash_booking booking now db = elim (find (is_live_hold booking now) db.bookings) [
  | none ↦ (standing db booking, db)
  | some r ↦
      if excluded db.bookings r
      then (err (conflict "Someone else has booked that hour since this request was made."), db)
      else (
        ok tt,
        record db {
          bookings =
              update_where (is_live_hold booking now) (with_status BookingStatus.confirmed)
                db.bookings;
        },
      )
]

-- `order by created_at desc limit 1`
unfoldable pub newer : Payment → Option Payment → Payment
newer p none = p
newer p (some q) = if ltb p.created_at q.created_at then q else p

unfoldable pub latest : (Payment → Bool) → List Payment → Option Payment
unfolding newer
latest want [] = none
latest want (p ∷ ps) = let rest = latest want ps in if want p then some (newer p rest) else rest

abbrev pub is_owed_cash : ℕ → Payment → Bool
is_owed_cash booking p = p.booking_id == booking && is_cash p.provider && is_initiated p.status

abbrev pub answer : Payment → Result (Unit {0}) × Db → Result Payment × Db
answer p (ok u, db) = (ok p, db)
answer p (err e, db) = (err e, db)

-- The booking is confirmed and the payment answered with.
unfoldable pub confirm_with : Payment → ℕ → ℕ → Tx Payment
confirm_with p booking now db = answer p (confirm_cash_booking booking now db)

-- The unique transaction and the positive amount that the insert requires.
unfoldable pub refused_cash : Payment → List Payment → Bool
refused_cash p payments =
    any (λ q. q.transaction_uuid == p.transaction_uuid) payments || not (ltb_ℤ (pos 0) p.amount_npr)

unfoldable pub book_cash_new : Payment → ℕ → ℕ → Tx Payment
book_cash_new p id now db =
    if refused_cash p db.payments
    then (err internal, db)
    else (let q : Payment = record p { id = id; created_at = now } in
        confirm_with q p.booking_id now (record db { payments = q ∷ db.payments }))

unfoldable pub book_cash_tx : Payment → ℕ → ℕ → Tx Payment
book_cash_tx p id now db = elim (find_booking db.bookings p.booking_id) [
  | none ↦ (err (not_found "That booking doesn't exist."), db)
  | some r ↦ elim (latest (is_owed_cash p.booking_id) db.payments) [
    | none ↦
        if not (is_pending r.status && is_after r.hold_expires_at now)
        then (err (conflict "This hold has lapsed. Pick the hour again."), db)
        else book_cash_new p id now db
    | some existing ↦
        if is_confirmed r.status
        then (ok existing, db)
        else if not (is_pending r.status && is_after r.hold_expires_at now)
        then (err (conflict "This hold has lapsed. Pick the hour again."), db)
        else confirm_with existing p.booking_id now db
  ]
]

unfoldable pub book_cash : Payment → ℕ → ℕ → Tx Payment
unfolding book_cash_tx
book_cash p id now = in_tx (book_cash_tx p id now)

-- lockOwnedCashPayment
unfoldable pub lock_owned_cash_payment : Db → ℕ → ℕ → Result Payment
lock_owned_cash_payment db id owner = elim (find_payment db.payments id) [
  | none ↦ err (not_found "No payment of yours with that id.")
  | some p ↦
      if not (owns_payment db owner p)
      then err (not_found "No payment of yours with that id.")
      else if not (is_cash p.provider)
      then err (conflict "That payment is settled through %s, not at the arena.")
      else ok p
]

unfoldable pub approve_cash_tx : ℕ → ℕ → ℕ → Tx Payment
approve_cash_tx id owner now db = elim (lock_owned_cash_payment db id owner) [
  | err e ↦ (err e, db)
  | ok p ↦
      if not (is_initiated p.status) && not (is_verified p.status)
      then (err (conflict "This request has already been closed."), db)
      else confirm_with p p.booking_id now db
]

unfoldable pub approve_cash : ℕ → ℕ → ℕ → Tx Payment
unfolding approve_cash_tx
approve_cash id owner now = in_tx (approve_cash_tx id owner now)

unfoldable pub decline_cash_tx : ℕ → ℕ → Tx Payment
decline_cash_tx id owner db = elim (lock_owned_cash_payment db id owner) [
  | err e ↦ (err e, db)
  | ok p ↦
      if is_failed p.status
      then (ok p, db)
      else if not (is_initiated p.status)
      then (err (conflict "This booking has already been paid for."), db)
      else if not (any (is_hold_of p.booking_id) db.bookings)
      then (err (conflict "Only a booking still waiting for approval can be declined."), db)
      else (
        ok (record p { status = PaymentStatus.failed }),
        record db {
          bookings =
              update_where (is_hold_of p.booking_id) (with_status BookingStatus.cancelled)
                db.bookings;
          payments =
              update_where (λ q. q.id == p.id) (λ q. record q { status = PaymentStatus.failed })
                db.payments;
          posts = close_posts p.booking_id db.posts;
        },
      )
]

unfoldable pub decline_cash : ℕ → ℕ → Tx Payment
unfolding decline_cash_tx
decline_cash id owner = in_tx (decline_cash_tx id owner)

abbrev pub collected : ℕ → Payment → Payment
collected at q = record q { status = PaymentStatus.verified; verified_at = some at }

-- The last write of MarkCashReceivedOwnerScoped, under the index of one paying payment for a booking.
unfoldable pub collect : Payment → ℕ → Tx Payment
unfolding already_paid
collect p at db = if already_paid db.payments p.booking_id p.id then (err internal, db) else (
  ok (collected at p),
  record db { payments = update_where (λ q. q.id == p.id) (collected at) db.payments },
)

abbrev pub then_collect : Payment → ℕ → Result (Unit {0}) × Db → Result Payment × Db
then_collect p at (ok u, db) = collect p at db
then_collect p at (err e, db) = (err e, db)

-- `at` is the service's clock, `now` the database's.
unfoldable pub mark_cash_received_tx : ℕ → ℕ → ℕ → ℕ → Tx Payment
mark_cash_received_tx id owner at now db = elim (lock_owned_cash_payment db id owner) [
  | err e ↦ (err e, db)
  | ok p ↦
      if is_settled p.status
      then (ok p, db)
      else then_collect p at (confirm_cash_booking p.booking_id now db)
]

unfoldable pub mark_cash_received : ℕ → ℕ → ℕ → ℕ → Tx Payment
unfolding mark_cash_received_tx
mark_cash_received id owner at now = in_tx (mark_cash_received_tx id owner at now)
