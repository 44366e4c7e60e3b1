-- ===== src/Service/Tenure.antt =====
-- What the transactions of internal/service leave of a booking that has been paid for.
use khel_arena.Prelude.{
  arith, Any, any-member, Bool-cases, inl, inr, true, ◌||◌, ℕ, ◌≡◌, false, ◌&&◌, not, Option, ◌==◌,
  any, if-intro,
}
use khel_arena.Domain.Errors.{Error, Result, ok, err, result-intro}
use khel_arena.Domain.Enums.{
  BookingStatus, is_live, is_pending, is_confirmed, is_completed, PaymentProvider, is_cash,
  is_verified, is_failed, is_final,
}
use khel_arena.Domain.Text.{Text}
use khel_arena.Domain.Booking.{Booking, cancel_reason}
use khel_arena.Domain.Payment.{Payment, GatewayResult, verify}
use khel_arena.Store.Tables.{has_verified, BookingRow, Db, Tx}
use khel_arena.Store.Payments.{by_transaction_uuid}
use khel_arena.Store.Tenure.{
  has_tenure, IsKept, IsKeptAfter, create_hold-IsKept, cancel-IsKept, restore_penalty-IsKept,
  sweep-IsKept,
}
use khel_arena.Store.Tenure.Payments.{
  settle-IsKept, create-IsKept, book_cash-IsKept, mark_refunded-IsKept, approve_cash-IsKept,
  decline_cash-IsKept, mark_cash_received-IsKept,
}
use khel_arena.Store.Invariant.{IsSound, is_paid_hold}
use khel_arena.Service.Bookings.{
  BookingService, CreateBookingInput, create, cancel, plan, store_hold,
}
use khel_arena.Service.Owner.{signed_in}
use khel_arena.Service.Owner.Desk.{
  then_run, restore_score, refund, approve_cash_booking, decline_cash_booking, mark_cash_received,
}
use khel_arena.Service.Payments.{
  same_provider, with_verdict, record_answer, ask_gateway, settle_found, settle, at_venue,
  at_gateway, start_payment, then_start, checkout,
}
use khel_arena.Service.Runs.{
  Step, create_booking, cancel_booking, start_checkout, gateway_callback, restore, refund_done,
  approve, decline, collect, janitor, Reach, here, later,
}

module _ (b : BookingRow) where
  with_verdict-IsKept :
      (e : Option Error) (x : Result Payment × Db)
      → IsKeptAfter b x
      → IsKeptAfter b (with_verdict e x)
  with_verdict-IsKept e (ok q, db) run = run
  with_verdict-IsKept e (err f, db) run = run

  at_venue-IsKept : (x : Result Payment × Db) → IsKeptAfter b x → IsKeptAfter b (at_venue x)
  at_venue-IsKept (ok p, db) run = run
  at_venue-IsKept (err e, db) run = run

  at_gateway-IsKept :
      (start : Payment → Result ℕ) (x : Result Payment × Db)
      → IsKeptAfter b x
      → IsKeptAfter b (at_gateway start x)
  at_gateway-IsKept start (ok p, db) run =
      result-intro (IsKeptAfter b) (start p) _ _ (λ e. run) λ page started. run
  at_gateway-IsKept start (err e, db) run = run

module _ (b : BookingRow) (db : Db) (kept : IsKept b db) where
  store_hold-IsKept :
      (id db_now : ℕ) (x : Result Booking) → IsKeptAfter b (store_hold id db_now db x)
  store_hold-IsKept id db_now (ok a) = create_hold-IsKept b db kept a id db_now
  store_hold-IsKept id db_now (err e) = kept

  create_booking-IsKept :
      (s : BookingService) (input : CreateBookingInput) (id now db_now : ℕ)
      → IsKeptAfter b (create s input id now db_now db)
  unfolding create
  create_booking-IsKept s input id now db_now =
      store_hold-IsKept id db_now (plan s input now db_now db)

  cancel_booking-IsKept :
      (ban_end : ℕ → ℕ) (booking user : ℕ) (raw : Text) (db_now : ℕ)
      → (booking == b.id && user == b.user_id) ≡ false
      → IsKeptAfter b (cancel ban_end booking user raw db_now db)
  unfolding cancel
  cancel_booking-IsKept ban_end booking user raw db_now other =
      if-intro (IsKeptAfter b) (user == 0) _ _ (λ h. kept)
        λ known.
          result-intro (IsKeptAfter b) (cancel_reason raw) _ _ (λ e. kept)
            λ reason given. cancel-IsKept b db kept ban_end booking user reason db_now other

  record_answer-IsKept :
      (p : Payment) (r : GatewayResult) (now db_now : ℕ)
      → IsKeptAfter b (record_answer p r now db_now db)
  unfolding record_answer
  record_answer-IsKept p r now db_now =
      let (q, _, e) = verify p r now in
      if-intro (IsKeptAfter b) (is_failed p.status && not (is_verified q.status)) _ _ (λ h. kept)
        λ h. with_verdict-IsKept b e _ (settle-IsKept b db kept q db_now)

  callback-IsKept :
      (ask : Payment → Result GatewayResult) (provider : PaymentProvider)
      (transaction now db_now : ℕ)
      → IsKeptAfter b (settle ask provider transaction now db_now db)
  unfolding settle settle_found ask_gateway
  callback-IsKept ask provider transaction now db_now =
      if-intro (IsKeptAfter b) (transaction == 0) _ _ (λ h. kept)
        λ named.
          result-intro (IsKeptAfter b) (by_transaction_uuid db transaction) _ _ (λ e. kept)
            λ p found.
              if-intro (IsKeptAfter b) (not (same_provider p.provider provider)) _ _ (λ h. kept)
                λ same.
                  if-intro (IsKeptAfter b) (is_final p.status) _ _ (λ h. kept)
                    λ open_still.
                      if-intro (IsKeptAfter b) (is_cash p.provider) _ _ (λ h. kept)
                        λ online.
                          result-intro (IsKeptAfter b) (ask p) _ _ (λ e. kept)
                            λ result asked. record_answer-IsKept p result now db_now

module _ (resolve : ℕ → PaymentProvider → Result (Unit {0})) (start : Payment → Result ℕ)
    (id db_now : ℕ) (b : BookingRow) (db : Db) (kept : IsKept b db) where
  start_payment-IsKept :
      (intent : Payment) → IsKeptAfter b (start_payment start intent id db_now db)
  unfolding start_payment
  start_payment-IsKept intent =
      if-intro (IsKeptAfter b) (is_cash intent.provider) _ _
        (λ cash. at_venue-IsKept b _ (book_cash-IsKept b db kept intent id db_now))
        λ online. at_gateway-IsKept b start _ (create-IsKept b db kept intent id db_now)

  then_start-IsKept : (x : Result Payment) → IsKeptAfter b (then_start start x id db_now db)
  then_start-IsKept (ok p) = start_payment-IsKept p
  then_start-IsKept (err e) = kept

  checkout-IsKept :
      (booking user : ℕ) (provider : PaymentProvider) (transaction : ℕ)
      → IsKeptAfter b (checkout resolve start booking user provider transaction id db_now db)
  unfolding checkout
  checkout-IsKept booking user provider transaction = then_start-IsKept _

then_run-IsKept :
    {A : Type 0} (b : BookingRow) (x : Result (Unit {0})) (run : Tx A) (db : Db)
    → IsKept b db
    → IsKeptAfter b (run db)
    → IsKeptAfter b (then_run x run db)
then_run-IsKept b (ok u) run db kept h = h
then_run-IsKept b (err e) run db kept h = kept

-- The call is not Cancel of the booking by its player.
abbrev pub SparesBooking : BookingRow → {db db' : Db} → Step db db' → Type 0
SparesBooking b (cancel_booking ban_end booking user reason db_now) =
    (booking == b.id && user == b.user_id) ≡ false
SparesBooking b (create_booking s input id now db_now fresh) = Unit
SparesBooking b (start_checkout resolve start booking user provider transaction id db_now fresh) =
    Unit
SparesBooking b (gateway_callback ask provider transaction now db_now) = Unit
SparesBooking b (restore booking owner now) = Unit
SparesBooking b (refund_done id owner now) = Unit
SparesBooking b (approve id owner now) = Unit
SparesBooking b (decline id owner) = Unit
SparesBooking b (collect id owner at now) = Unit
SparesBooking b (janitor now) = Unit

abbrev pub Spares : BookingRow → {db db' : Db} → Reach db db' → Type 0
Spares b here = Unit
Spares b (later run step) = Spares b run × SparesBooking b step

Step-IsKept :
    (b : BookingRow) {db db' : Db} (step : Step db db')
    → SparesBooking b step
    → IsKept b db
    → IsKept b db'
unfolding restore_score refund approve_cash_booking decline_cash_booking mark_cash_received
Step-IsKept b (create_booking {db} s input id now db_now fresh) spared kept =
    create_booking-IsKept b db kept s input id now db_now
Step-IsKept b (cancel_booking {db} ban_end booking user reason db_now) spared kept =
    cancel_booking-IsKept b db kept ban_end booking user reason db_now spared
Step-IsKept b (start_checkout {db} resolve start booking user provider transaction id db_now fresh)
      spared kept =
    checkout-IsKept resolve start id db_now b db kept booking user provider transaction
Step-IsKept b (gateway_callback {db} ask provider transaction now db_now) spared kept =
    callback-IsKept b db kept ask provider transaction now db_now
Step-IsKept b (restore {db} booking owner now) spared kept =
    then_run-IsKept b (signed_in owner) _ db kept
      (restore_penalty-IsKept b db kept booking owner now)
Step-IsKept b (refund_done {db} id owner now) spared kept =
    then_run-IsKept b (signed_in owner) _ db kept (mark_refunded-IsKept b db kept id owner now)
Step-IsKept b (approve {db} id owner now) spared kept =
    then_run-IsKept b (signed_in owner) _ db kept (approve_cash-IsKept b db kept id owner now)
Step-IsKept b (decline {db} id owner) spared kept =
    then_run-IsKept b (signed_in owner) _ db kept (decline_cash-IsKept b db kept id owner)
Step-IsKept b (collect {db} id owner at now) spared kept =
    then_run-IsKept b (signed_in owner) _ db kept
      (mark_cash_received-IsKept b db kept id owner at now)
Step-IsKept b (janitor {db} now) spared kept = sweep-IsKept b db kept now

Reach-IsKept :
    (b : BookingRow) {db db' : Db} (run : Reach db db') → Spares b run → IsKept b db → IsKept b db'
Reach-IsKept b here spared kept = kept
Reach-IsKept b (later run step) (spared, last) kept =
    Step-IsKept b step last (Reach-IsKept b run spared kept)

live_settled :
    (status : BookingStatus)
    → is_live status ≡ true
    → is_pending status ≡ false
    → is_confirmed status || is_completed status ≡ true
unfolding is_live
live_settled status live settled = ground arith

-- A live booking with a verified payment is confirmed or played.
paid-has_tenure :
    (b : BookingRow) (db : Db)
    → IsSound db
    → Any (λ x. x ≡ b) db.bookings
    → is_live b.status ≡ true
    → has_verified db.payments b.id ≡ true
    → has_tenure b b ≡ true
paid-has_tenure b db sound m live paid =
    let held = any-member (is_paid_hold db.payments) db.bookings sound.unpaid m in
    let settled = live_settled b.status live (ground arith) in ground arith

paid-IsKept :
    (b : BookingRow) (db : Db)
    → IsSound db
    → Any (λ x. x ≡ b) db.bookings
    → is_live b.status ≡ true
    → has_verified db.payments b.id ≡ true
    → IsKept b db
paid-IsKept b db sound m live paid =
    let tenure = paid-has_tenure b db sound m live paid in
    elim (Bool-cases (any (has_tenure b) db.bookings)) [
      | inl kept ↦ kept
      | inr lost ↦ let none_left = any-member (has_tenure b) db.bookings lost m in ground arith
    ]

-- A booking that has been paid for keeps its hour: from sound tables where it is live and has a verified
-- payment, whatever transactions run, as long as none of them is Cancel of this booking by its player,
-- there is a row with its number, court, player and slot that is confirmed or played.
pub paid_booking-IsKept :
    (b : BookingRow) {db db' : Db}
    → IsSound db
    → Any (λ x. x ≡ b) db.bookings
    → is_live b.status ≡ true
    → has_verified db.payments b.id ≡ true
    → (run : Reach db db') → Spares b run
    → any (has_tenure b) db'.bookings ≡ true
paid_booking-IsKept b {db = db} sound m live paid run spared =
    Reach-IsKept b run spared (paid-IsKept b db sound m live paid)
