-- ===== src/Domain/Payment/Verdict.antt =====
-- What a gateway's answer can do to a payment.
use khel_arena.Prelude.{ℕ, ◌≡◌, ◌↔◌, ◌⊎◌, true, false, none, some, arith}
use khel_arena.Domain.Enums.{PaymentStatus, is_final, is_verified}
use khel_arena.Domain.Payment.{Payment, GatewayResult, verify}

-- The answer names this payment, says that the money moved, and says the amount that was asked for.
pub record IsProof (p : Payment) (r : GatewayResult) : Type 0 where
  pub named : (r.transaction_uuid ≡ 0) ⊎ (r.transaction_uuid ≡ p.transaction_uuid)
  pub moved : r.verified ≡ true
  pub exact : r.amount_npr ≡ p.amount_npr

confirmed-IsProof :
    (p : Payment) (r : GatewayResult) (now : ℕ)
    → (verify p r now).1 ≡ true
    → (is_final p.status ≡ false) × IsProof p r
unfolding verify
confirmed-IsProof p r now h = ground arith

IsProof-confirmed :
    (p : Payment) (r : GatewayResult) (now : ℕ)
    → (is_final p.status ≡ false) × IsProof p r
    → (verify p r now).1 ≡ true
unfolding verify
IsProof-confirmed p r now h = ground arith

-- A booking is to be confirmed exactly if the payment could still change and the answer is proof:
-- the gateway verified it, for this transaction, and for the amount that was owed.
pub verify_confirms_iff :
    (p : Payment) (r : GatewayResult) (now : ℕ)
    → ((verify p r now).1 ≡ true) ↔ ((is_final p.status ≡ false) × IsProof p r)
verify_confirms_iff p r now = (confirmed-IsProof p r now, IsProof-confirmed p r now)

-- Whatever the answer, the payment keeps its booking, its amount and its transaction. Then either the
-- booking is to be confirmed, without an error, and the payment is verified as of now; or it is not
-- to be confirmed, and the payment either was final and has not changed at all, or is not verified.
pub verify_safe :
    (p : Payment) (r : GatewayResult) (now : ℕ)
    → let (q, confirm, e) = verify p r now in
      (q.booking_id ≡ p.booking_id)
      × (q.amount_npr ≡ p.amount_npr)
      × (q.transaction_uuid ≡ p.transaction_uuid)
      × ((confirm ≡ true)
            × (e ≡ none)
            × (q.status ≡ PaymentStatus.verified)
            × (q.verified_at ≡ some now)
          ⊎ (confirm ≡ false)
            × ((is_final p.status ≡ true) × (q ≡ p) × (e ≡ none)
                ⊎ (is_final p.status ≡ false) × (is_verified q.status ≡ false)))
unfolding verify
verify_safe p r now = ground arith
