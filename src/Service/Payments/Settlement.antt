-- ===== src/Service/Payments/Settlement.antt =====
-- What PaymentService does to the tables, whatever the gateway answers.
use khel_arena.Prelude.{
  ℕ, ◌≡◌, refl, false, ◌&&◌, not, Option, some, arith, ◌==◌, find, any, Any, find-some, if-intro,
}
use khel_arena.Domain.Errors.{Error, Result, ok, err, >>=-eq-ok, result-intro}
use khel_arena.Domain.Enums.{PaymentProvider, is_cash, is_verified, is_failed, is_final}
use khel_arena.Domain.Booking.{Booking, is_held_by}
use khel_arena.Domain.Payment.{Payment, GatewayResult, verify, new_payment_intent}
use khel_arena.Store.Tables.{Db}
use khel_arena.Store.Bookings.{by_id}
use khel_arena.Store.Payments.{by_transaction_uuid, is_transaction}
use khel_arena.Store.Invariant.{IsSound, IsSoundAfter}
use khel_arena.Store.Soundness.Payments.{Agrees, member-Agrees, settle-IsSound, create-IsSound}
use khel_arena.Store.Soundness.Cash.{book_cash-IsSound}
use khel_arena.Service.Bookings.{refuse_if}
use khel_arena.Service.Payments.{
  same_provider, with_verdict, record_answer, ask_gateway, settle_found, settle, at_venue,
  at_gateway, start_payment, intent_for, then_start, checkout,
}

with_verdict-IsSound :
    (e : Option Error) (x : Result Payment × Db) → IsSoundAfter x → IsSoundAfter (with_verdict e x)
with_verdict-IsSound e (ok q, db) h = h
with_verdict-IsSound e (err f, db) h = h

-- The gateway's answer does not change which payment it is, nor for which booking.
same_payment :
    (p : Payment) (r : GatewayResult) (now : ℕ)
    → ((verify p r now).0.id ≡ p.id) × ((verify p r now).0.booking_id ≡ p.booking_id)
unfolding verify
same_payment p r now = ground arith

by_transaction-member :
    (db : Db) (t : ℕ) {p : Payment} → by_transaction_uuid db t ≡ ok p → Any (λ q. q ≡ p) db.payments
unfolding by_transaction_uuid
by_transaction-member db t {p} h =
    let found : find (is_transaction t) db.payments ≡ some p = ground arith in
    (find-some (is_transaction t) db.payments found).1

module _ (db : Db) (sound : IsSound db) where
  record_answer-IsSound :
      (p : Payment) (r : GatewayResult) (now db_now : ℕ)
      → Any (λ q. q ≡ p) db.payments
      → IsSound (record_answer p r now db_now db).1
  unfolding record_answer
  record_answer-IsSound p r now db_now member =
      let (q, _, e) = verify p r now in
      let (id, booking) = same_payment p r now in
      let agrees : Agrees db.payments q =
        rw (id, booking) (member-Agrees db.payments p sound.payment_ids member) in
      if-intro IsSoundAfter (is_failed p.status && not (is_verified q.status)) _ _ (λ h. sound)
        λ h. with_verdict-IsSound e _ (settle-IsSound q db_now db sound agrees)

  settle_found-IsSound :
      (ask : Payment → Result GatewayResult) (provider : PaymentProvider) (p : Payment)
      (now db_now : ℕ)
      → Any (λ q. q ≡ p) db.payments
      → IsSound (settle_found ask provider p now db_now db).1
  unfolding settle_found ask_gateway
  settle_found-IsSound ask provider p now db_now member =
      if-intro IsSoundAfter (not (same_provider p.provider provider)) _ _ (λ h. sound)
        λ same.
          if-intro IsSoundAfter (is_final p.status) _ _ (λ h. sound)
            λ open_still.
              if-intro IsSoundAfter (is_cash p.provider) _ _ (λ h. sound)
                λ online.
                  result-intro IsSoundAfter (ask p) _ _ (λ e. sound)
                    λ result asked. record_answer-IsSound p result now db_now member

-- Whatever a callback names and whatever the gateway answers, Settle keeps the tables sound: no two
-- live bookings of a court overlap, every hold has an end, no booking with a verified payment is
-- still a hold, and identifiers are unique.
pub callback-IsSound :
    (ask : Payment → Result GatewayResult) (provider : PaymentProvider) (transaction now db_now : ℕ)
    (db : Db)
    → IsSound db
    → IsSound (settle ask provider transaction now db_now db).1
unfolding settle
callback-IsSound ask provider transaction now db_now db sound =
    if-intro IsSoundAfter (transaction == 0) _ _ (λ h. sound)
      λ named.
        result-intro IsSoundAfter (by_transaction_uuid db transaction) _ _ (λ e. sound)
          λ p found.
            settle_found-IsSound db sound ask provider p now db_now
              (by_transaction-member db transaction found)

at_venue-IsSound : (x : Result Payment × Db) → IsSoundAfter x → IsSoundAfter (at_venue x)
at_venue-IsSound (ok p, db) h = h
at_venue-IsSound (err e, db) h = h

at_gateway-IsSound :
    (start : Payment → Result ℕ) (x : Result Payment × Db)
    → IsSoundAfter x
    → IsSoundAfter (at_gateway start x)
at_gateway-IsSound start (ok p, db) h =
    result-intro IsSoundAfter (start p) _ _ (λ e. h) λ page started. h
at_gateway-IsSound start (err e, db) h = h

-- An intent is not verified.
new_payment_intent-initiated :
    (b : Booking) (provider : PaymentProvider) (transaction : ℕ) {p : Payment}
    → new_payment_intent b provider transaction ≡ ok p
    → is_verified p.status ≡ false
unfolding new_payment_intent
new_payment_intent-initiated b provider transaction h = ground arith

module _ (resolve : ℕ → PaymentProvider → Result (Unit {0})) (start : Payment → Result ℕ)
    (id db_now : ℕ) (db : Db) (sound : IsSound db)
    (fresh : any (λ q. id == q.id) db.payments ≡ false) where
  start_payment-IsSound :
      (intent : Payment)
      → is_verified intent.status ≡ false
      → IsSound (start_payment start intent id db_now db).1
  unfolding start_payment
  start_payment-IsSound intent initiated =
      if-intro IsSoundAfter (is_cash intent.provider) _ _
        (λ cash. at_venue-IsSound _ (book_cash-IsSound intent id db_now db sound initiated fresh))
        λ online.
          at_gateway-IsSound start _ (create-IsSound intent id db_now db sound initiated fresh)

  pub intent_for-initiated :
      (booking user : ℕ) (provider : PaymentProvider) (transaction : ℕ) {p : Payment}
      → intent_for resolve booking user provider transaction db ≡ ok p
      → is_verified p.status ≡ false
  unfolding intent_for
  intent_for-initiated booking user provider transaction h =
      let (_, _, k₁) = >>=-eq-ok (refuse_if (user == 0) _) _ h in
      let (b, _, k₂) = >>=-eq-ok (by_id db booking) _ k₁ in
      let (_, _, k₃) = >>=-eq-ok (refuse_if (not (is_held_by b user)) _) _ k₂ in
      let (_, _, k₄) = >>=-eq-ok (resolve booking provider) _ k₃ in
      new_payment_intent-initiated b provider transaction k₄

  then_start-IsSound :
      (x : Result Payment)
      → ((p : Payment) → x ≡ ok p → is_verified p.status ≡ false)
      → IsSound (then_start start x id db_now db).1
  then_start-IsSound (ok p) h = start_payment-IsSound p (h p refl)
  then_start-IsSound (err e) h = sound

  -- Checkout keeps the tables sound, under an identifier that no payment has.
  pub checkout-IsSound :
      (booking user : ℕ) (provider : PaymentProvider) (transaction : ℕ)
      → IsSound (checkout resolve start booking user provider transaction id db_now db).1
  unfolding checkout
  checkout-IsSound booking user provider transaction =
      then_start-IsSound _ (λ p. intent_for-initiated booking user provider transaction)
