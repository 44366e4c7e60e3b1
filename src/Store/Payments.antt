-- ===== src/Store/Payments.antt =====
-- PaymentRepo of internal/postgres/payment.go: how a gateway's answer is written, and how a gateway's
-- money is put towards its booking.
use khel_arena.Prelude.{
  ℕ, Bool, false, ◌&&◌, ◌||◌, not, Option, none, some, List, ◌∷◌, String, pos, ltb_ℤ, ◌==◌,
  if◌then◌else◌, any, find,
}
use khel_arena.Domain.Errors.{Result, ok, err, not_found, conflict, internal}
use khel_arena.Domain.Enums.{
  PaymentProvider, PaymentStatus, is_pending, is_confirmed, is_completed, is_cash, is_esewa,
  is_khalti, is_initiated, is_verified, is_failed, is_final,
}
use khel_arena.Domain.Payment.{Payment, is_some}
use khel_arena.Store.Tables.{BookingRow, Db, Tx, in_tx, update_where}
use khel_arena.Store.Bookings.{find_booking}
use khel_arena.Store.Cancellation.{owns}
use khel_arena.Store.Sweeps.{confirm}

unfoldable pub find_payment : List Payment → ℕ → Option Payment
find_payment payments id = find (λ p. p.id == id) payments

abbrev pub is_transaction : ℕ → Payment → Bool
is_transaction t p = p.transaction_uuid == t

unfoldable pub has_booking : List BookingRow → ℕ → Bool
has_booking rows id = any (λ r. r.id == id) rows

-- Create: a new intent, under a unique transaction and a positive amount.
unfoldable pub create : Payment → ℕ → ℕ → Tx Payment
unfolding has_booking
create p id now db =
    if any (is_transaction p.transaction_uuid) db.payments
    then (err (conflict "That payment has already been started."), db)
    else if not (ltb_ℤ (pos 0) p.amount_npr && has_booking db.bookings p.booking_id)
    then (err internal, db)
    else (let q : Payment = record p { id = id; created_at = now } in
        (ok q, record db { payments = q ∷ db.payments }))

unfoldable pub by_transaction_uuid : Db → ℕ → Result Payment
by_transaction_uuid db t = elim (find (is_transaction t) db.payments) [
  | none ↦ err (not_found "We have no record of that payment.")
  | some p ↦ ok p
]

-- A verified payment that is not waiting to be sent back: the one that pays for its booking.
unfoldable pub pays : Payment → Bool
pays p = is_verified p.status && not (is_some p.refund_due_at)

-- `paidSQL`: another payment pays for the booking.
abbrev pub pays_besides : ℕ → ℕ → Payment → Bool
pays_besides booking id p = p.booking_id == booking && not (p.id == id) && pays p

unfoldable pub already_paid : List Payment → ℕ → ℕ → Bool
unfolding pays
already_paid payments booking id = any (pays_besides booking id) payments

-- The unique index on gateway references, which a new reference must not break.
abbrev pub same_ref : ℕ → PaymentProvider → ℕ → Payment → Bool
same_ref id provider ref p =
    not (p.id == id)
    && p.provider_ref == ref
    && (is_esewa p.provider && is_esewa provider
        || is_khalti p.provider && is_khalti provider
        || is_cash p.provider && is_cash provider)

unfoldable pub ref_taken : List Payment → ℕ → PaymentProvider → ℕ → Bool
ref_taken payments id provider ref = not (ref == 0) && any (same_ref id provider ref) payments

abbrev pub is_open_cash : ℕ → Payment → Bool
is_open_cash booking p = p.booking_id == booking && is_cash p.provider && is_initiated p.status

abbrev pub fail : Payment → Payment
fail p = record p { status = PaymentStatus.failed }

abbrev pub without_refund : Result (Unit {0}) × Db → Result (Option String) × Db
without_refund (ok u, db) = (ok none, db)
without_refund (err e, db) = (err e, db)

-- The switch of applyToBooking, on the booking's row.
unfoldable pub apply_to_row : Payment → BookingRow → Tx (Option String)
apply_to_row p r db =
    if already_paid db.payments p.booking_id p.id
    then (ok (some "This booking had already been paid for."), db)
    else if is_pending r.status
    then without_refund (confirm p.booking_id db)
    else if is_confirmed r.status || is_completed r.status
    then (
      ok none,
      record db { payments = update_where (is_open_cash p.booking_id) fail db.payments },
    )
    else (ok (some "The booking was %s before the payment completed."), db)

-- applyToBooking: the reason for a refund, or none, and the tables with the booking confirmed.
unfoldable pub apply_to_booking : Payment → Tx (Option String)
apply_to_booking p db = elim (find_booking db.bookings p.booking_id) [
  | none ↦ (err internal, db)
  | some r ↦ apply_to_row p r db
]

abbrev pub has_id : ℕ → Payment → Bool
has_id id p = p.id == id

-- `failSQL`
abbrev pub record_failure : Payment → Payment → Payment
record_failure p q = record q {
  status = p.status;
  provider_ref = p.provider_ref;
  raw_response = p.raw_response;
}

-- `verifySQL`
abbrev pub record_verified : Payment → Option String → ℕ → Payment → Payment
record_verified p reason now q = record q {
  status = PaymentStatus.verified;
  provider_ref = p.provider_ref;
  raw_response = p.raw_response;
  verified_at = p.verified_at;
  refund_due_at = elim reason [ none ↦ none | some w ↦ some now ];
  refund_reason = reason;
}

-- The stored row is read back at the end.
unfoldable pub reread : ℕ → Tx Payment
unfolding find_payment
reread id db = elim (find_payment db.payments id) [
  | none ↦ (err internal, db)
  | some q ↦ (ok q, db)
]

-- The index of one paying payment for a booking, where the row is not flagged for a refund.
unfoldable pub pays_twice : Payment → Option String → List Payment → Bool
pays_twice p none payments = already_paid payments p.booking_id p.id
pays_twice p (some reason) payments = false

-- The update that keeps the money that moved, under both unique indexes.
unfoldable pub write_verified : Payment → Option String → ℕ → Tx Payment
write_verified p reason now db =
    if ref_taken db.payments p.id p.provider p.provider_ref
    then (err internal, db)
    else if pays_twice p reason db.payments
    then (err internal, db)
    else (reread p.id (record db {
      payments = update_where (has_id p.id) (record_verified p reason now) db.payments;
    }))

abbrev pub then_write : Payment → ℕ → Result (Option String) × Db → Result Payment × Db
then_write p now (ok reason, db) = write_verified p reason now db
then_write p now (err e, db) = (err e, db)

unfoldable pub settle_verified : Payment → ℕ → Tx Payment
settle_verified p now db = then_write p now (apply_to_booking p db)

unfoldable pub settle_failed : Payment → Tx Payment
settle_failed p db =
    if ref_taken db.payments p.id p.provider p.provider_ref
    then (err internal, db)
    else reread p.id
        (record db { payments = update_where (has_id p.id) (record_failure p) db.payments })

unfoldable pub settle_tx : Payment → ℕ → Tx Payment
settle_tx p now db = elim (find_payment db.payments p.id) [
  | none ↦ (err (not_found "We have no record of that payment."), db)
  | some current ↦
      if is_final current.status
      then reread p.id db
      else if not (is_verified p.status)
      then (if is_failed current.status then reread p.id db else settle_failed p db)
      else settle_verified p now db
]

unfoldable pub settle : Payment → ℕ → Tx Payment
unfolding settle_tx
settle p now = in_tx (settle_tx p now)

-- MarkRefundedOwnerScoped: once, and only at the caller's own venue.
unfoldable pub owns_payment : Db → ℕ → Payment → Bool
unfolding find_booking owns
owns_payment db owner p = elim (find_booking db.bookings p.booking_id) [
  | none ↦ false
  | some r ↦ owns db.courts r.court_id owner
]

unfoldable pub is_refundable : Db → ℕ → ℕ → Payment → Bool
unfolding owns_payment
is_refundable db id owner p =
    p.id == id && owns_payment db owner p && is_some p.refund_due_at && not (is_some p.refunded_at)

unfoldable pub mark_refunded : ℕ → ℕ → ℕ → Tx Payment
unfolding is_refundable
mark_refunded id owner now db = elim (find (is_refundable db id owner) db.payments) [
  | none ↦ (err (not_found "No refund owed at your venue with that id."), db)
  | some p ↦ (
    ok (record p { refunded_at = some now }),
    record db {
      payments =
          update_where (is_refundable db id owner) (λ q. record q { refunded_at = some now })
            db.payments;
    },
  )
]
