-- ===== src/Store/Tenure/Payments.antt =====
-- What the transactions of internal/postgres/payment.go leave of a booking that has the court.
use khel_arena.Prelude.{
  ℕ, pos, ltb_ℤ, not, Option, String, arith, any, find, if-intro, option-intro, ◌&&◌, ◌||◌,
}
use khel_arena.Domain.Errors.{Result, ok, err, result-intro}
use khel_arena.Domain.Enums.{
  is_pending, is_confirmed, is_completed, is_verified, is_initiated, is_failed, is_settled,
  is_final,
}
use khel_arena.Domain.Booking.{is_after}
use khel_arena.Domain.Payment.{Payment}
use khel_arena.Store.Tables.{BookingRow, Db}
use khel_arena.Store.Bookings.{find_booking}
use khel_arena.Store.Sweeps.{is_hold_of}
use khel_arena.Store.Payments.{
  apply_to_booking, apply_to_row, already_paid, write_verified, reread, find_payment, ref_taken,
  settle_verified, settle_failed, settle_tx, settle, create, mark_refunded, is_refundable,
  is_transaction, has_booking, without_refund, then_write, pays_twice,
}
use khel_arena.Store.Cash.{
  is_live_hold, excluded, confirm_cash_booking, confirm_with, answer, latest, is_owed_cash,
  book_cash, book_cash_tx, refused_cash, book_cash_new, lock_owned_cash_payment, approve_cash,
  approve_cash_tx, decline_cash, decline_cash_tx, collect, then_collect, mark_cash_received,
  mark_cash_received_tx,
}
use khel_arena.Store.Tenure.{IsKept, IsKeptAfter, in_tx-IsKept, pending-kept, confirm-IsKept}

module _ (b : BookingRow) where
  reread-IsKept : (id : ℕ) (db : Db) → IsKept b db → IsKeptAfter b (reread id db)
  unfolding reread
  reread-IsKept id db run =
      option-intro (IsKeptAfter b) (find_payment db.payments id) _ _ run λ q found. run

  write_verified-IsKept :
      (p : Payment) (reason : Option String) (now : ℕ) (db : Db)
      → IsKept b db
      → IsKeptAfter b (write_verified p reason now db)
  unfolding write_verified
  write_verified-IsKept p reason now db run =
      if-intro (IsKeptAfter b) (ref_taken db.payments p.id p.provider p.provider_ref) _ _ (λ h. run)
        λ free.
          if-intro (IsKeptAfter b) (pays_twice p reason db.payments) _ _ (λ h. run)
            λ once. reread-IsKept p.id _ run

  then_write-IsKept :
      (p : Payment) (now : ℕ) (x : Result (Option String) × Db)
      → IsKeptAfter b x
      → IsKeptAfter b (then_write p now x)
  then_write-IsKept p now (ok reason, db) run = write_verified-IsKept p reason now db run
  then_write-IsKept p now (err e, db) run = run

  without_refund-IsKept :
      (x : Result (Unit {0}) × Db) → IsKeptAfter b x → IsKeptAfter b (without_refund x)
  without_refund-IsKept (ok u, db) run = run
  without_refund-IsKept (err e, db) run = run

  answer-IsKept :
      (p : Payment) (x : Result (Unit {0}) × Db) → IsKeptAfter b x → IsKeptAfter b (answer p x)
  answer-IsKept p (ok u, db) run = run
  answer-IsKept p (err e, db) run = run

  then_collect-IsKept :
      (p : Payment) (at : ℕ) (x : Result (Unit {0}) × Db)
      → IsKeptAfter b x
      → IsKeptAfter b (then_collect p at x)
  unfolding collect
  then_collect-IsKept p at (ok u, db) run =
      if-intro (IsKeptAfter b) (already_paid db.payments p.booking_id p.id) _ _ (λ h. run)
        λ once. run
  then_collect-IsKept p at (err e, db) run = run

module _ (b : BookingRow) (db : Db) (kept : IsKept b db) where
  apply_to_booking-IsKept : (p : Payment) → IsKeptAfter b (apply_to_booking p db)
  unfolding apply_to_booking apply_to_row
  apply_to_booking-IsKept p =
      option-intro (IsKeptAfter b) (find_booking db.bookings p.booking_id) _ _ kept λ r found.
        if-intro (IsKeptAfter b) (already_paid db.payments p.booking_id p.id) _ _ (λ h. kept)
          λ due.
            if-intro (IsKeptAfter b) (is_pending r.status) _ _
              (λ held. without_refund-IsKept b _ (confirm-IsKept b db kept p.booking_id))
              λ settled.
                if-intro (IsKeptAfter b) (is_confirmed r.status || is_completed r.status) _ _
                  (λ h. kept) λ h. kept

  pub settle-IsKept : (p : Payment) (now : ℕ) → IsKeptAfter b (settle p now db)
  unfolding settle settle_tx settle_verified settle_failed
  settle-IsKept p now = in_tx-IsKept b (settle_tx p now) db kept (
      option-intro (IsKeptAfter b) (find_payment db.payments p.id) _ _ kept λ current found.
        if-intro (IsKeptAfter b) (is_final current.status) _ _ (λ h. reread-IsKept b p.id db kept)
          λ open_still.
            if-intro (IsKeptAfter b) (not (is_verified p.status)) _ _
              (λ failed.
                if-intro (IsKeptAfter b) (is_failed current.status) _ _
                  (λ h. reread-IsKept b p.id db kept)
                  λ h.
                    if-intro (IsKeptAfter b) (ref_taken db.payments p.id p.provider p.provider_ref)
                      _ _ (λ k. kept) λ free. reread-IsKept b p.id _ kept)
              λ moved. then_write-IsKept b p now _ (apply_to_booking-IsKept p))

  pub create-IsKept : (p : Payment) (id now : ℕ) → IsKeptAfter b (create p id now db)
  unfolding create
  create-IsKept p id now =
      if-intro (IsKeptAfter b) (any (is_transaction p.transaction_uuid) db.payments) _ _ (λ h. kept)
        λ new.
          if-intro (IsKeptAfter b)
            (not (ltb_ℤ (pos 0) p.amount_npr && has_booking db.bookings p.booking_id)) _ _
            (λ h. kept) λ storable. kept

  pub mark_refunded-IsKept : (id owner now : ℕ) → IsKeptAfter b (mark_refunded id owner now db)
  unfolding mark_refunded
  mark_refunded-IsKept id owner now =
      option-intro (IsKeptAfter b) (find (is_refundable db id owner) db.payments) _ _ kept
        λ p found. kept

  confirm_cash_booking-IsKept :
      (booking now : ℕ) → IsKeptAfter b (confirm_cash_booking booking now db)
  unfolding confirm_cash_booking
  confirm_cash_booking-IsKept booking now =
      option-intro (IsKeptAfter b) (find (is_live_hold booking now) db.bookings) _ _ kept λ r found.
        if-intro (IsKeptAfter b) (excluded db.bookings r) _ _ (λ h. kept)
          λ apart.
            pending-kept b (is_live_hold booking now) _ db.bookings (λ x h. ground arith) kept

  confirm_with-IsKept :
      (p : Payment) (booking now : ℕ) → IsKeptAfter b (confirm_with p booking now db)
  unfolding confirm_with
  confirm_with-IsKept p booking now = answer-IsKept b p _ (confirm_cash_booking-IsKept booking now)

  pub approve_cash-IsKept : (id owner now : ℕ) → IsKeptAfter b (approve_cash id owner now db)
  unfolding approve_cash approve_cash_tx
  approve_cash-IsKept id owner now = in_tx-IsKept b (approve_cash_tx id owner now) db kept (
      result-intro (IsKeptAfter b) (lock_owned_cash_payment db id owner) _ _ (λ e. kept)
        λ p locked.
          if-intro (IsKeptAfter b) (not (is_initiated p.status) && not (is_verified p.status)) _ _
            (λ h. kept) λ h. confirm_with-IsKept p p.booking_id now)

  pub decline_cash-IsKept : (id owner : ℕ) → IsKeptAfter b (decline_cash id owner db)
  unfolding decline_cash decline_cash_tx
  decline_cash-IsKept id owner = in_tx-IsKept b (decline_cash_tx id owner) db kept (
      result-intro (IsKeptAfter b) (lock_owned_cash_payment db id owner) _ _ (λ e. kept)
        λ p locked.
          if-intro (IsKeptAfter b) (is_failed p.status) _ _ (λ h. kept)
            λ h₁.
              if-intro (IsKeptAfter b) (not (is_initiated p.status)) _ _ (λ h. kept)
                λ h₂.
                  if-intro (IsKeptAfter b) (not (any (is_hold_of p.booking_id) db.bookings)) _ _
                    (λ h. kept)
                    λ h₃.
                      pending-kept b (is_hold_of p.booking_id) _ db.bookings (λ r h. ground arith)
                        kept)

  pub mark_cash_received-IsKept :
      (id owner at now : ℕ) → IsKeptAfter b (mark_cash_received id owner at now db)
  unfolding mark_cash_received mark_cash_received_tx
  mark_cash_received-IsKept id owner at now =
      in_tx-IsKept b (mark_cash_received_tx id owner at now) db kept (
        result-intro (IsKeptAfter b) (lock_owned_cash_payment db id owner) _ _ (λ e. kept)
          λ p locked.
            if-intro (IsKeptAfter b) (is_settled p.status) _ _ (λ h. kept)
              λ due. then_collect-IsKept b p at _ (confirm_cash_booking-IsKept p.booking_id now))

module _ (b : BookingRow) (db : Db) (kept : IsKept b db) (p : Payment) (id now : ℕ) where
  book_cash_new-IsKept : IsKeptAfter b (book_cash_new p id now db)
  unfolding book_cash_new
  book_cash_new-IsKept =
      if-intro (IsKeptAfter b) (refused_cash p db.payments) _ _ (λ h. kept)
        λ accepted. confirm_with-IsKept b _ kept _ p.booking_id now

  pub book_cash-IsKept : IsKeptAfter b (book_cash p id now db)
  unfolding book_cash book_cash_tx
  book_cash-IsKept = in_tx-IsKept b (book_cash_tx p id now) db kept (
      option-intro (IsKeptAfter b) (find_booking db.bookings p.booking_id) _ _ kept λ r found.
        option-intro (IsKeptAfter b) (latest (is_owed_cash p.booking_id) db.payments) _ _
          (if-intro (IsKeptAfter b) (not (is_pending r.status && is_after r.hold_expires_at now)) _
            _ (λ h. kept) λ live. book_cash_new-IsKept)
          λ existing owed.
            if-intro (IsKeptAfter b) (is_confirmed r.status) _ _ (λ h. kept)
              λ h.
                if-intro (IsKeptAfter b)
                  (not (is_pending r.status && is_after r.hold_expires_at now)) _ _ (λ k. kept)
                  λ live. confirm_with-IsKept b db kept existing p.booking_id now)
