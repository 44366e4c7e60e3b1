-- ===== src/Service/Payments/Callback.antt =====
-- What becomes of a payment that the gateway proves, through the whole of PaymentService.Settle.
use khel_arena.Prelude.{ℕ, ◌≡◌, refl, ◌∙◌, true, false, ◌&&◌, not, none, arith, ◌==◌}
use khel_arena.Domain.Errors.{Result, ok, err}
use khel_arena.Domain.Enums.{
  PaymentProvider, PaymentStatus, is_cash, is_verified, is_failed, is_final,
}
use khel_arena.Domain.Payment.{Payment, GatewayResult, verify}
use khel_arena.Domain.Payment.Verdict.{IsProof}
use khel_arena.Store.Tables.{BookingRow, Db}
use khel_arena.Store.Payments
use khel_arena.Store.Payments.{by_transaction_uuid}
use khel_arena.Store.Settling.{Settled, CanSettle, settle-Settled}
use khel_arena.Service.Payments.{same_provider, record_answer, ask_gateway, settle_found, settle}

-- What `Settled` says of an outcome includes that there is one.
Settled-outcome :
    (p : Payment) (r : BookingRow) (now : ℕ) (db : Db) (x : Result Payment × Db)
    → Settled p r now db x
    → (stored : Payment) × (db' : Db) × (x ≡ (ok stored, db')) × Settled p r now db (ok stored, db')
Settled-outcome p r now db (ok q, db') h = (q, db', refl, h)
Settled-outcome p r now db (err e, db') h = elim h [ ]

-- What proof does to an open or failed payment.
proven :
    (p : Payment) (result : GatewayResult) (now : ℕ)
    → is_final p.status ≡ false
    → IsProof p result
    → ((verify p result now).0.status ≡ PaymentStatus.verified) × ((verify p result now).2 ≡ none)
unfolding verify
proven p result now open_still proof = ground arith

-- The payment that a callback names: stored, not final, of the provider that calls back, and not cash.
pub record IsCalledBack (db : Db) (provider : PaymentProvider) (transaction : ℕ) (p : Payment)
    : Type 0 where
  pub named : (transaction == 0) ≡ false
  pub stored : by_transaction_uuid db transaction ≡ ok p
  pub matching : same_provider p.provider provider ≡ true
  pub open_still : is_final p.status ≡ false
  pub online : is_cash p.provider ≡ false

record_answer-Settled :
    (p : Payment) (result : GatewayResult) (r : BookingRow) (now db_now : ℕ) (db : Db)
    → is_final p.status ≡ false
    → IsProof p result
    → CanSettle (verify p result now).0 p r db
    → (stored : Payment) × (db' : Db) × (record_answer p result now db_now db
        ≡ (ok (stored, none), db'))
      × Settled (verify p result now).0 r db_now db (ok stored, db')
unfolding record_answer
record_answer-Settled p result r now db_now db open_still proof able =
    let q : Payment = (verify p result now).0 in
    let (moved, no_error) = proven p result now open_still proof in
    let (stored, db', e, settled) =
      Settled-outcome q r db_now db (Payments.settle q db_now db)
        (settle-Settled q p r db_now db able moved) in
    let verified : (is_failed p.status && not (is_verified q.status)) ≡ false = ground arith in
    (stored, db', rw (verified, e, no_error) refl, settled)

-- Such a callback goes through to the gateway.
settle_called :
    (ask : Payment → Result GatewayResult) (provider : PaymentProvider) (transaction now db_now : ℕ)
    (db : Db) (p : Payment) (result : GatewayResult)
    → IsCalledBack db provider transaction p
    → ask p ≡ ok result
    → settle ask provider transaction now db_now db ≡ record_answer p result now db_now db
unfolding settle settle_found ask_gateway
settle_called ask provider transaction now db_now db p result called asked =
    rw
      (
        called.named, called.stored, called.matching, called.open_still, called.online, ask_gateway,
        asked,
      )
      refl

-- A callback of the payment's provider, for a gateway payment that is open or failed and stored under
-- the transaction, and whose booking exists, whose gateway answers with proof (it names this transaction
-- or none, says that the money moved, and says the amount owed) under a reference that no other payment
-- of the provider has, is answered without an error; and the payment is stored as `Settled` says:
-- verified, with its booking confirmed or played, or with a refund due.
pub callback-Settled :
    (ask : Payment → Result GatewayResult) (provider : PaymentProvider) (transaction now db_now : ℕ)
    (db : Db) (p : Payment) (result : GatewayResult) (r : BookingRow)
    → IsCalledBack db provider transaction p
    → ask p ≡ ok result
    → IsProof p result
    → CanSettle (verify p result now).0 p r db
    → (stored : Payment) × (db' : Db) × (settle ask provider transaction now db_now db
        ≡ (ok (stored, none), db'))
      × Settled (verify p result now).0 r db_now db (ok stored, db')
callback-Settled ask provider transaction now db_now db p result r called asked proof able =
    let (stored, db', e, settled) =
      record_answer-Settled p result r now db_now db called.open_still proof able in
    (
      stored,
      db',
      settle_called ask provider transaction now db_now db p result called asked ∙ e,
      settled,
    )
