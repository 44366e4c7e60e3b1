-- ===== src/Store/Soundness/Payments.antt =====
-- PaymentRepo.Settle and Create keep the tables sound.
mod Applying
use khel_arena.Prelude.{
  ℕ, pos, ltb_ℤ, ◌≡◌, refl, ap, inl, inr, Bool, true, false, ◌&&◌, ◌||◌, not, Option, none, some,
  String, List, [], ◌∷◌, arith, ◌==◌, any, find, All, All-map, Any, any-All, AllPairs, any-weaken,
  any-member, find-some, some-eq, Bool-cases, if-intro, option-intro,
}
use khel_arena.Domain.Errors.{Result, ok, err}
use khel_arena.Domain.Enums.{
  is_pending, is_confirmed, is_completed, is_verified, is_failed, is_final,
}
use khel_arena.Domain.Payment.{Payment}
use khel_arena.Store.Tables.{BookingRow, Db, has_verified, update_where}
use khel_arena.Store.Bookings.{find_booking}
use khel_arena.Store.Updates.{any-update_where_self, All-update_where}
use khel_arena.Store.Sweeps.{is_hold_of, confirm}
use khel_arena.Store.Payments.{
  apply_to_booking, apply_to_row, already_paid, pays, pays_besides, write_verified, reread,
  find_payment, ref_taken, settle_verified, settle_failed, settle_tx, settle, record_verified,
  record_failure, has_id, is_open_cash, fail, create, mark_refunded, is_refundable, is_transaction,
  has_booking, without_refund, then_write, pays_twice,
}
use khel_arena.Store.Invariant.{
  IsSound, IsSoundAfter, Safe, Safe-if, Safe-option, in_tx-IsSound, is_paid_hold, same_booking_id,
  same_payment_id,
}
use khel_arena.Store.Changes.{Quiet, payments-IsSound}
use khel_arena.Store.Soundness.Bookings.{confirm_hold-IsSound, fail-Quiet}
pub use khel_arena.Store.Soundness.Payments.Applying.{Agrees, member-Agrees, find_booking-no_hold}
use khel_arena.Store.Soundness.Payments.Applying.{
  strangers, already_paid-has_verified, Applied, Applied-same, Applied-confirm, Applied-found,
  paid-settled, close_cash-Applied, apply_to_row-Applied, apply_to_booking-Applied,
}

reread-Safe : (id : ℕ) (db : Db) → IsSound db → Safe (reread id db)
unfolding reread
reread-Safe id db sound = Safe-option (find_payment db.payments id) _ _ tt (λ q found. sound)

-- The rows of the payment become verified, and their booking is no hold.
verified-Quiet :
    (p : Payment) (reason : Option String) (now : ℕ) (rows : List BookingRow)
    (payments : List Payment)
    → any (is_hold_of p.booking_id) rows ≡ false
    → Agrees payments p
    → All (Quiet (has_id p.id) (record_verified p reason now) rows) payments
verified-Quiet p reason now rows [] held agrees = tt
verified-Quiet p reason now rows (q ∷ qs) held agrees = (
  (λ h. record {
    same_id = refl;
    same_booking = refl;
    verified_before = λ e. inr (rw (agrees.0 h) held);
  }),
  verified-Quiet p reason now rows qs held agrees.1,
)

write_verified-Safe :
    (p : Payment) (reason : Option String) (now : ℕ) (db : Db)
    → Applied p (ok reason, db)
    → Safe (write_verified p reason now db)
unfolding write_verified
write_verified-Safe p reason now db (sound, held, agrees) =
    Safe-if (ref_taken db.payments p.id p.provider p.provider_ref) _ _ (λ h. tt)
      λ free.
        Safe-if (pays_twice p reason db.payments) _ _ (λ h. tt)
          λ once. reread-Safe p.id _ (
            payments-IsSound db (has_id p.id) (record_verified p reason now)
              (verified-Quiet p reason now db.bookings db.payments held agrees) (λ q. refl) sound)

failure-Quiet :
    (p : Payment) (rows : List BookingRow) (payments : List Payment)
    → is_verified p.status ≡ false
    → All (Quiet (has_id p.id) (record_failure p) rows) payments
failure-Quiet p rows [] h = tt
failure-Quiet p rows (q ∷ qs) h = (
  (λ hit. record { same_id = refl; same_booking = refl; verified_before = λ e. cc }),
  failure-Quiet p rows qs h,
)

settle_failed-Safe :
    (p : Payment) (db : Db) → is_verified p.status ≡ false → IsSound db → Safe (settle_failed p db)
unfolding settle_failed
settle_failed-Safe p db failed sound =
    Safe-if (ref_taken db.payments p.id p.provider p.provider_ref) _ _ (λ h. tt)
      λ free.
        reread-Safe p.id _ (
          payments-IsSound db _ _ (failure-Quiet p db.bookings db.payments failed) (λ q. refl)
            sound)

then_write-Safe :
    (p : Payment) (now : ℕ) (x : Result (Option String) × Db)
    → Applied p x
    → Safe (then_write p now x)
then_write-Safe p now (ok reason, db) h = write_verified-Safe p reason now db h
then_write-Safe p now (err e, db) h = tt

settle_verified-Safe :
    (p : Payment) (now : ℕ) (db : Db)
    → IsSound db
    → Agrees db.payments p
    → Safe (settle_verified p now db)
unfolding settle_verified
settle_verified-Safe p now db sound agrees =
    then_write-Safe p now (apply_to_booking p db) (apply_to_booking-Applied p db sound agrees)

-- Settle keeps the tables sound, if the caller's copy of the payment names the stored booking.
pub settle-IsSound :
    (p : Payment) (now : ℕ) (db : Db)
    → IsSound db
    → Agrees db.payments p
    → IsSound (settle p now db).1
unfolding settle settle_tx
settle-IsSound p now db sound agrees = in_tx-IsSound (settle_tx p now) db sound (
    Safe-option (find_payment db.payments p.id) _ _ tt λ current found.
      Safe-if (is_final current.status) _ _ (λ h. reread-Safe p.id db sound)
        λ open_still.
          Safe-if (not (is_verified p.status)) _ _
            (λ failed.
              Safe-if (is_failed current.status) _ _ (λ h. reread-Safe p.id db sound)
                λ h. settle_failed-Safe p db (ground arith) sound)
            λ moved. settle_verified-Safe p now db sound agrees)

-- A payment that is not verified, under an unused identifier.
pub add_payment-IsSound :
    (q : Payment) (db : Db)
    → IsSound db
    → is_verified q.status ≡ false
    → any (same_payment_id q) db.payments ≡ false
    → IsSound (record db { payments = q ∷ db.payments })
unfolding has_verified
add_payment-IsSound q db sound intent fresh = record {
  disjoint = sound.disjoint;
  fused = sound.fused;
  unpaid =
      any-weaken (is_paid_hold db.payments) (is_paid_hold (q ∷ db.payments)) (λ r h. ground arith)
        db.bookings sound.unpaid;
  booking_ids = sound.booking_ids;
  payment_ids = (fresh, sound.payment_ids);
}

refunded-Quiet :
    (p : Payment → Bool) (now : ℕ) (rows : List BookingRow) (payments : List Payment)
    → All (Quiet p (λ q. record q { refunded_at = some now }) rows) payments
refunded-Quiet p now rows [] = tt
refunded-Quiet p now rows (q ∷ qs) = (
  (λ h. record { same_id = refl; same_booking = refl; verified_before = λ e. inl e }),
  refunded-Quiet p now rows qs,
)

-- Create keeps the tables sound, if it is given an intent and an unused identifier.
pub create-IsSound :
    (p : Payment) (id now : ℕ) (db : Db)
    → IsSound db
    → is_verified p.status ≡ false
    → any (λ q. id == q.id) db.payments ≡ false
    → IsSound (create p id now db).1
unfolding create
create-IsSound p id now db sound intent fresh =
    if-intro IsSoundAfter (any (is_transaction p.transaction_uuid) db.payments) _ _ (λ h. sound)
      λ new.
        if-intro IsSoundAfter
          (not (ltb_ℤ (pos 0) p.amount_npr && has_booking db.bookings p.booking_id)) _ _
          (λ h. sound)
          λ storable.
            add_payment-IsSound (record p { id = id; created_at = now }) db sound intent fresh

-- MarkRefundedOwnerScoped changes no status.
pub mark_refunded-IsSound :
    (id owner now : ℕ) (db : Db) → IsSound db → IsSound (mark_refunded id owner now db).1
unfolding mark_refunded
mark_refunded-IsSound id owner now db sound =
    option-intro IsSoundAfter (find (is_refundable db id owner) db.payments) _ _ sound λ p found.
      payments-IsSound db (is_refundable db id owner) (λ q. record q { refunded_at = some now })
        (refunded-Quiet (is_refundable db id owner) now db.bookings db.payments) (λ q. refl) sound
