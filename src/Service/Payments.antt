-- ===== src/Service/Payments.antt =====
-- Checkout, Settle and Status of PaymentService, internal/service/payment.go. The gateway is not part
-- of the repository's own logic: `ask` is what the resolved gateway answers about a payment, an error
-- included, and `start` whether it takes the player to its page.
pub mod Settlement
pub mod Callback
use khel_arena.Prelude.{
  ℕ, Bool, true, false, ◌&&◌, not, Option, none, some, List, ◌==◌, if◌then◌else◌,
}
use text.Mathlib.Text.{◌==◌ as str_eq}
use khel_arena.Domain.Errors.{
  Error, Result, ok, err, ◌>>=◌, ◌>>◌, invalid, unauthenticated, not_found,
}
use khel_arena.Domain.Enums.{
  PaymentProvider, is_esewa, is_khalti, is_cash, is_verified, is_failed, is_final,
}
use khel_arena.Domain.Booking.{Booking, is_held_by}
use khel_arena.Domain.Payment.{Payment, GatewayResult, verify, new_payment_intent}
use khel_arena.Store.Tables.{Db, Tx}
use khel_arena.Store.Bookings.{by_id}
use khel_arena.Store.Payments
use khel_arena.Store.Payments.{by_transaction_uuid}
use khel_arena.Store.Cash.{book_cash}
use khel_arena.Service.Bookings.{refuse_if}

-- `p.Provider == provider`
abbrev pub same_provider : PaymentProvider → PaymentProvider → Bool
same_provider PaymentProvider.esewa q = is_esewa q
same_provider PaymentProvider.khalti q = is_khalti q
same_provider PaymentProvider.cash q = is_cash q
same_provider (PaymentProvider.other s) (PaymentProvider.other t) = str_eq s t
same_provider (PaymentProvider.other s) q = false

abbrev pub Answer : Type 0
Answer = Payment × Option Error

-- What Settle returns: nothing but an error, or a payment, and the error that goes with it.
abbrev pub with_verdict : Option Error → Result Payment × Db → Result Answer × Db
with_verdict e (ok q, db) = (ok (q, e), db)
with_verdict e (err f, db) = (err f, db)

-- Settle, from the gateway's answer on.
unfoldable pub record_answer : Payment → GatewayResult → ℕ → ℕ → Tx Answer
unfolding verify
record_answer p result now db_now db =
    let (q, confirm, e) = verify p result now in
    if is_failed p.status && not (is_verified q.status)
    then (ok (q, e), db)
    else with_verdict e (Payments.settle q db_now db)

unfoldable pub ask_gateway : (Payment → Result GatewayResult) → Payment → ℕ → ℕ → Tx Answer
ask_gateway ask p now db_now db = elim (ask p) [
  | err e ↦ (err e, db)
  | ok result ↦ record_answer p result now db_now db
]

-- Settle, on the payment that the transaction names.
unfoldable pub settle_found :
    (Payment → Result GatewayResult) → PaymentProvider → Payment → ℕ → ℕ → Tx Answer
settle_found ask provider p now db_now db =
    if not (same_provider p.provider provider)
    then (err (invalid "provider" "That payment link doesn't match this payment."), db)
    else if is_final p.status
    then (ok (p, none), db)
    else if is_cash p.provider
    then (err (invalid "provider" "That payment link doesn't match this payment."), db)
    else ask_gateway ask p now db_now db

-- Settle: `transaction` is what the callback names, `now` the service's clock, `db_now` the
-- database's.
unfoldable pub settle : (Payment → Result GatewayResult) → PaymentProvider → ℕ → ℕ → ℕ → Tx Answer
settle ask provider transaction now db_now db =
    if transaction == 0
    then (err (invalid "transaction" "That payment link names no transaction."), db)
    else elim (by_transaction_uuid db transaction) [
      | err e ↦ (err e, db)
      | ok p ↦ settle_found ask provider p now db_now db
    ]

-- What the player is sent to: nothing for cash.
abbrev pub CheckoutAnswer : Type 0
CheckoutAnswer = Option ℕ × Payment

abbrev pub at_venue : Result Payment × Db → Result CheckoutAnswer × Db
at_venue (ok p, db) = (ok (none, p), db)
at_venue (err e, db) = (err e, db)

abbrev pub at_gateway : (Payment → Result ℕ) → Result Payment × Db → Result CheckoutAnswer × Db
at_gateway start (ok p, db) = elim (start p) [
  | err e ↦ (err e, db)
  | ok page ↦ (ok (some page, p), db)
]
at_gateway start (err e, db) = (err e, db)

-- Checkout, once the intent is made.
unfoldable pub start_payment : (Payment → Result ℕ) → Payment → ℕ → ℕ → Tx CheckoutAnswer
start_payment start intent id db_now db =
    if is_cash intent.provider
    then at_venue (book_cash intent id db_now db)
    else at_gateway start (Payments.create intent id db_now db)

-- The checks of Checkout, in order, and the intent that it makes. `resolve` is what ForCheckout finds
-- for the booking and the provider.
unfoldable pub intent_for :
    (ℕ → PaymentProvider → Result (Unit {0})) → ℕ → ℕ → PaymentProvider → ℕ → Db → Result Payment
intent_for resolve booking user provider transaction db = do
  refuse_if (user == 0) (unauthenticated "Sign in to pay for a booking.")
  b ← by_id db booking
  refuse_if (not (is_held_by b user)) (not_found "No booking with that reference.")
  resolve booking provider
  new_payment_intent b provider transaction

abbrev pub then_start : (Payment → Result ℕ) → Result Payment → ℕ → ℕ → Tx CheckoutAnswer
then_start start (ok intent) id db_now db = start_payment start intent id db_now db
then_start start (err e) id db_now db = (err e, db)

-- Checkout
unfoldable pub checkout :
    (ℕ → PaymentProvider → Result (Unit {0}))
    → (Payment → Result ℕ)
    → ℕ
    → ℕ
    → PaymentProvider
    → ℕ
    → ℕ
    → ℕ
    → Tx CheckoutAnswer
checkout resolve start booking user provider transaction id db_now db =
    then_start start (intent_for resolve booking user provider transaction db) id db_now db
