-- ===== src/Domain/Payment.antt =====
-- internal/domain/paymentar.go: one attempt to settle a booking, and what a gateway's answer does to
-- it. Transaction identifiers, gateway references and raw responses are only compared and kept, so
-- each is a number, and 0 stands for the empty text.
pub mod Verdict
use khel_arena.Prelude.{
  ℕ, Bool, true, false, ◌&&◌, ◌||◌, not, Option, none, some, ℤ, pos, leb_ℤ, eq_ℤ, ◌==◌,
  if◌then◌else◌, String,
}
use khel_arena.Domain.Errors.{Error, Result, ok, err, invalid, conflict, internal, refuse, ◌>>◌}
use khel_arena.Domain.Enums.{
  PaymentProvider, PaymentStatus, is_verified, is_refunded, is_final, can_cancel, valid_provider,
}
use khel_arena.Domain.Booking.{Booking}

pub record Payment : Type 0 where
  pub id : ℕ
  pub booking_id : ℕ
  pub provider : PaymentProvider
  pub amount_npr : ℤ
  pub status : PaymentStatus
  pub transaction_uuid : ℕ
  pub provider_ref : ℕ
  pub raw_response : ℕ
  pub created_at : ℕ
  pub verified_at : Option ℕ
  pub refund_due_at : Option ℕ
  pub refund_reason : Option String
  pub refunded_at : Option ℕ

pub record GatewayResult : Type 0 where
  pub verified : Bool
  pub transaction_uuid : ℕ
  pub provider_ref : ℕ
  pub amount_npr : ℤ
  pub raw : ℕ

abbrev pub is_some : Option ℕ → Bool
is_some none = false
is_some (some t) = true

unfoldable pub refund_owed : Payment → Bool
refund_owed p = is_some p.refund_due_at && not (is_some p.refunded_at)

-- `p.Status = PaymentFailed`, with the evidence kept.
abbrev with_failure : Payment → GatewayResult → Payment
with_failure p r = record p {
  status = PaymentStatus.failed;
  raw_response = r.raw;
  provider_ref = r.provider_ref;
}

-- `(*Payment).Verify`: the payment afterwards, `confirmBooking`, and the error.
unfoldable pub verify : Payment → GatewayResult → ℕ → Payment × Bool × Option Error
unfolding is_final
verify p result now =
    if is_final p.status
    then (p, false, none)
    else if not (result.transaction_uuid == 0)
        && not (result.transaction_uuid == p.transaction_uuid)
    then (p, false, some internal)
    else if not result.verified
    then (with_failure p result, false, none)
    else if not (eq_ℤ result.amount_npr p.amount_npr)
    then (
      with_failure p result,
      false,
      some (
          conflict
            "The amount paid (NPR %d) doesn't match this booking (NPR %d). Nothing has been confirmed."),
    )
    else (
      record p {
        status = PaymentStatus.verified;
        provider_ref = result.provider_ref;
        raw_response = result.raw;
        verified_at = some now;
      },
      true,
      none,
    )

-- `NewPaymentIntent`; `transaction` is the fresh `uuid.NewString()`.
unfoldable pub new_payment_intent : Booking → PaymentProvider → ℕ → Result Payment
unfolding can_cancel valid_provider
new_payment_intent b provider transaction = do
  refuse (
      if valid_provider provider
      then none
      else some (invalid "provider" "%q is not a valid %s. Expected one of: %s."))
  refuse (
      if can_cancel b.status
      then none
      else some (conflict "This booking can no longer be paid for."))
  refuse (
      if leb_ℤ b.price_npr (pos 0)
      then some (conflict "This booking has nothing to pay.")
      else none)
  ok (record {
    id = 0;
    booking_id = b.id;
    provider = provider;
    amount_npr = b.price_npr;
    status = PaymentStatus.initiated;
    transaction_uuid = transaction;
    provider_ref = 0;
    raw_response = 0;
    created_at = 0;
    verified_at = none;
    refund_due_at = none;
    refund_reason = none;
    refunded_at = none;
  })

-- `(*Payment).Refund`: the payment afterwards, and the error.
unfoldable pub refund : Payment → Payment × Option Error
refund p =
    if is_verified p.status
    then (record p { status = PaymentStatus.refunded }, none)
    else if is_refunded p.status
    then (p, some (conflict "This payment has already been refunded."))
    else (p, some (conflict "Only a completed payment can be refunded."))
