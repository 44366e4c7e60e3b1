-- ===== src/Store/Settling.antt =====
-- PaymentRepo.Settle of internal/postgres/payment.go: what becomes of money that has moved.
mod Writing
use khel_arena.Prelude.{
  ℕ, ◌≡◌, refl, ap, ◌⊎◌, inl, inr, Bool, true, false, ◌&&◌, ◌||◌, not, Option, none, some, String,
  List, arith, ◌==◌, find, find-some, if-intro, if◌then◌else◌,
}
use khel_arena.Domain.Errors.{Result, ok, err, internal}
use khel_arena.Domain.Enums.{
  BookingStatus, PaymentStatus, is_pending, is_confirmed, is_completed, is_cash, is_verified,
  is_final,
}
use khel_arena.Domain.Payment.{Payment}
use khel_arena.Store.Tables.{BookingRow, Db, update_where, commit}
use khel_arena.Store.Bookings.{find_booking, with_status}
use khel_arena.Store.Sweeps.{confirm, is_hold_of}
use khel_arena.Store.Updates.{find-update_where, find-any, any-update_where, any-update_where_same}
use khel_arena.Store.Payments.{
  apply_to_booking, apply_to_row, already_paid, pays, pays_besides, pays_twice, write_verified,
  reread, find_payment, ref_taken, settle_verified, settle_tx, settle, record_verified, has_id,
  is_open_cash, fail, then_write, same_ref, without_refund,
}
unfoldable pub use khel_arena.Store.Settling.Writing.{takes, Settled}
use khel_arena.Store.Settling.Writing.{
  reread-ok, find_payment-updated, find_payment-kept, write_verified-ok, close_cash-free,
  close_cash-unpaid, confirm-found,
}

module _ (p : Payment) (now : ℕ) (db : Db) {current : Payment} {r : BookingRow}
    (kept : find_payment db.payments p.id ≡ some current)
    (placed : find_booking db.bookings p.booking_id ≡ some r)
    (free : ref_taken db.payments p.id p.provider p.provider_ref ≡ false) where
  -- Nothing to take it: the money is kept and flagged.
  Settled-refund :
      (why : String)
      → takes db.payments p r ≡ false
      → Settled p r now db (then_write p now (ok (some why), db))
  unfolding pays_twice
  Settled-refund why refused =
      let (db', e, again, same) = write_verified-ok p now (some why) db kept free refl in
      rw e (refl, refl, again, inr (refused, refl, same))

  Settled-pending :
      is_pending r.status ≡ true
      → already_paid db.payments p.booking_id p.id ≡ false
      → takes db.payments p r ≡ true
      → Settled p r now db (then_write p now (without_refund (confirm p.booking_id db)))
  unfolding pays_twice
  Settled-pending hold unpaid taking =
      let (db₁, e, same, found) = confirm-found db p.booking_id placed hold in
      let kept₁ : find_payment db₁.payments p.id ≡ some current = rw same kept in
      let (db', e', again, rows) =
        write_verified-ok p now none db₁ kept₁ (rw same free) (rw same unpaid) in
      rw (e, e')
        (
          refl,
          refl,
          again,
          inl (taking, refl, (with_status BookingStatus.confirmed r, rw rows found, refl)),
        )

  -- The booking stands already; other requests to pay it in cash are closed.
  Settled-standing :
      (is_confirmed r.status || is_completed r.status) ≡ true
      → already_paid db.payments p.booking_id p.id ≡ false
      → is_cash current.provider ≡ false
      → takes db.payments p r ≡ true
      → Settled p r now db (
          then_write p now (
            ok none,
            record db { payments = update_where (is_open_cash p.booking_id) fail db.payments },
          ))
  unfolding pays_twice
  Settled-standing stands unpaid online taking =
      let db₁ : Db = record db {
        payments = update_where (is_open_cash p.booking_id) fail db.payments;
      } in
      let (db', e', again, rows) =
        write_verified-ok p now none db₁
          (find_payment-kept (is_open_cash p.booking_id) p.id db.payments kept (ground arith))
          (close_cash-free p db.payments free) (close_cash-unpaid p db.payments unpaid) in
      rw e' (refl, refl, again, inl (taking, refl, (r, rw rows placed, stands)))

  Settled-row :
      is_cash current.provider ≡ false → Settled p r now db (then_write p now (apply_to_row p r db))
  unfolding apply_to_row takes
  Settled-row online =
      if-intro (λ x. Settled p r now db (then_write p now x))
        (already_paid db.payments p.booking_id p.id) _ _ (λ paid. Settled-refund _ (ground arith))
        λ unpaid.
          if-intro (λ x. Settled p r now db (then_write p now x)) (is_pending r.status) _ _
            (λ hold. Settled-pending hold unpaid (ground arith))
            λ settled.
              if-intro (λ x. Settled p r now db (then_write p now x))
                (is_confirmed r.status || is_completed r.status) _ _
                (λ stands. Settled-standing stands unpaid online (ground arith))
                λ gone. Settled-refund _ (ground arith)

-- The payment that is stored, and its booking, are found; no other payment has its reference.
pub record CanSettle (p current : Payment) (r : BookingRow) (db : Db) : Type 0 where
  pub kept : find_payment db.payments p.id ≡ some current
  pub placed : find_booking db.bookings p.booking_id ≡ some r
  pub free : ref_taken db.payments p.id p.provider p.provider_ref ≡ false
  pub online : is_cash current.provider ≡ false
  pub open_still : is_final current.status ≡ false

Settled-in_tx :
    (p : Payment) (r : BookingRow) (now : ℕ) (db : Db) (x : Result Payment × Db)
    → Settled p r now db x
    → Settled p r now db (commit db x)
Settled-in_tx p r now db (ok q, db') h = h
Settled-in_tx p r now db (err e, db') h = elim h [ ]

settle_verified_row :
    (p : Payment) (r : BookingRow) (now : ℕ) (db : Db)
    → find_booking db.bookings p.booking_id ≡ some r
    → settle_verified p now db ≡ then_write p now (apply_to_row p r db)
unfolding settle_verified apply_to_booking
settle_verified_row p r now db h =
    ap (λ o. then_write p now (elim o [ none ↦ (err internal, db) | some x ↦ apply_to_row p x db ]))
      h

-- Settle never loses money that moved. A gateway payment whose stored row is open or failed, and
-- whose reference no other payment has, is stored as verified with that reference. If no other
-- payment pays for its booking, and the booking is a hold, confirmed or played, then no refund is due
-- and the booking is confirmed or played afterwards; otherwise a refund is due from now on, and no
-- booking has changed.
pub settle-Settled :
    (p current : Payment) (r : BookingRow) (now : ℕ) (db : Db)
    → CanSettle p current r db
    → p.status ≡ PaymentStatus.verified
    → Settled p r now db (settle p now db)
unfolding settle
settle-Settled p current r now db able moved =
    let verified : is_verified p.status ≡ true = rw moved refl in
    let row = Settled-row p now db able.kept able.placed able.free able.online in
    Settled-in_tx p r now db (settle_tx p now db) (
      rw
        (
          settle_tx,
          able.kept,
          able.open_still,
          verified,
          settle_verified_row p r now db able.placed,
        )
        row)
