-- ===== src/Service/Runs.antt =====
-- The transactions of the booking and payment services, of the venue's owner and of the janitor, in
-- any order, as steps on the tables; each locks the rows that it decides on, so a run is a sequence of
-- them.
use khel_arena.Prelude.{
  ℕ, ◌≡◌, sym, ◌∙◌, ◌⊎◌, inl, inr, true, false, List, [], ◌∷◌, arith, ◌==◌, any, Any, AllPairs,
  any-member, if-intro,
}
use khel_arena.Domain.Errors.{Result, ok, err, result-intro}
use khel_arena.Domain.Enums.{PaymentProvider, is_live}
use khel_arena.Domain.Text.{Text}
use khel_arena.Domain.Slot.Interval.{overlaps}
use khel_arena.Domain.Slot.Interval.Laws.{Contains, common_overlaps}
use khel_arena.Domain.Booking.{Booking, cancel_reason}
use khel_arena.Domain.Payment.{Payment, GatewayResult}
use khel_arena.Store.Tables.{BookingRow, Db, Tx, clash}
use khel_arena.Store.Sweeps.{sweep}
use khel_arena.Store.Invariant.{IsSound, IsSoundAfter, IsFreshBooking}
use khel_arena.Store.Holds.{create_hold-IsSound}
use khel_arena.Store.Soundness.Bookings.{cancel-IsSound, restore_penalty-IsSound, sweep-IsSound}
use khel_arena.Store.Soundness.Payments.{mark_refunded-IsSound}
use khel_arena.Store.Soundness.Cash.{
  approve_cash-IsSound, decline_cash-IsSound, mark_cash_received-IsSound,
}
use khel_arena.Service.Bookings.{
  BookingService, CreateBookingInput, create, cancel, plan, store_hold,
}
use khel_arena.Service.Owner.{signed_in}
use khel_arena.Service.Owner.Desk.{
  then_run, restore_score, refund, approve_cash_booking, decline_cash_booking, mark_cash_received,
}
use khel_arena.Service.Payments.{checkout, settle}
use khel_arena.Service.Payments.Settlement.{callback-IsSound, checkout-IsSound}

-- One transaction, whatever it answers, with whatever arguments; the identifier of a new row is one
-- that gen_random_uuid() may return.
pub data Step : Db → Db → Type 0 where
  create_booking :
      {db : Db} (s : BookingService) (input : CreateBookingInput) (id now db_now : ℕ)
      → IsFreshBooking db id
      → Step db (create s input id now db_now db).1
  cancel_booking :
      {db : Db} (ban_end : ℕ → ℕ) (booking user : ℕ) (reason : Text) (db_now : ℕ)
      → Step db (cancel ban_end booking user reason db_now db).1
  start_checkout :
      {db : Db} (resolve : ℕ → PaymentProvider → Result (Unit {0})) (start : Payment → Result ℕ)
      (booking user : ℕ) (provider : PaymentProvider) (transaction id db_now : ℕ)
      → any (λ q. id == q.id) db.payments ≡ false
      → Step db (checkout resolve start booking user provider transaction id db_now db).1
  gateway_callback :
      {db : Db} (ask : Payment → Result GatewayResult) (provider : PaymentProvider)
      (transaction now db_now : ℕ)
      → Step db (settle ask provider transaction now db_now db).1
  restore : {db : Db} (booking owner now : ℕ) → Step db (restore_score booking owner now db).1
  refund_done : {db : Db} (id owner now : ℕ) → Step db (refund id owner now db).1
  approve : {db : Db} (id owner now : ℕ) → Step db (approve_cash_booking id owner now db).1
  decline : {db : Db} (id owner : ℕ) → Step db (decline_cash_booking id owner db).1
  collect : {db : Db} (id owner at now : ℕ) → Step db (mark_cash_received id owner at now db).1
  janitor : {db : Db} (now : ℕ) → Step db (sweep now db)

pub data Reach (db : Db) : Db → Type 0 where
  here : Reach db db
  later : {mid after : Db} → Reach db mid → Step mid after → Reach db after

store_hold-IsSound :
    (id db_now : ℕ) (db : Db) (x : Result Booking)
    → IsSound db
    → IsFreshBooking db id
    → IsSound (store_hold id db_now db x).1
store_hold-IsSound id db_now db (ok b) sound fresh = create_hold-IsSound db b id db_now sound fresh
store_hold-IsSound id db_now db (err e) sound fresh = sound

create_booking-IsSound :
    (s : BookingService) (input : CreateBookingInput) (id now db_now : ℕ) (db : Db)
    → IsSound db
    → IsFreshBooking db id
    → IsSound (create s input id now db_now db).1
unfolding create
create_booking-IsSound s input id now db_now db sound fresh =
    store_hold-IsSound id db_now db (plan s input now db_now db) sound fresh

cancel_booking-IsSound :
    (ban_end : ℕ → ℕ) (booking user : ℕ) (reason : Text) (db_now : ℕ) (db : Db)
    → IsSound db
    → IsSound (cancel ban_end booking user reason db_now db).1
unfolding cancel
cancel_booking-IsSound ban_end booking user raw db_now db sound =
    if-intro IsSoundAfter (user == 0) _ _ (λ h. sound)
      λ known.
        result-intro IsSoundAfter (cancel_reason raw) _ _ (λ e. sound)
          λ reason given. cancel-IsSound ban_end booking user reason db_now db sound

-- A call of the owner's changes nothing, or what the repository changes.
then_run-IsSound :
    {A : Type 0} (x : Result (Unit {0})) (run : Tx A) (db : Db)
    → IsSound db
    → IsSoundAfter (run db)
    → IsSoundAfter (then_run x run db)
then_run-IsSound (ok u) run db sound h = h
then_run-IsSound (err e) run db sound h = sound

Step-IsSound : {db db' : Db} → Step db db' → IsSound db → IsSound db'
unfolding restore_score refund approve_cash_booking decline_cash_booking mark_cash_received
Step-IsSound (create_booking {db} s input id now db_now fresh) sound =
    create_booking-IsSound s input id now db_now db sound fresh
Step-IsSound (cancel_booking {db} ban_end booking user reason db_now) sound =
    cancel_booking-IsSound ban_end booking user reason db_now db sound
Step-IsSound (start_checkout {db} resolve start booking user provider transaction id db_now fresh)
      sound =
    checkout-IsSound resolve start id db_now db sound fresh booking user provider transaction
Step-IsSound (gateway_callback {db} ask provider transaction now db_now) sound =
    callback-IsSound ask provider transaction now db_now db sound
Step-IsSound (restore {db} booking owner now) sound =
    then_run-IsSound (signed_in owner) _ db sound
      (restore_penalty-IsSound booking owner now db sound)
Step-IsSound (refund_done {db} id owner now) sound =
    then_run-IsSound (signed_in owner) _ db sound (mark_refunded-IsSound id owner now db sound)
Step-IsSound (approve {db} id owner now) sound =
    then_run-IsSound (signed_in owner) _ db sound (approve_cash-IsSound id owner now db sound)
Step-IsSound (decline {db} id owner) sound =
    then_run-IsSound (signed_in owner) _ db sound (decline_cash-IsSound id owner db sound)
Step-IsSound (collect {db} id owner at now) sound =
    then_run-IsSound (signed_in owner) _ db sound
      (mark_cash_received-IsSound id owner at now db sound)
Step-IsSound (janitor {db} now) sound = sweep-IsSound now db sound

-- However the transactions follow each other, sound tables stay sound: no two live bookings of a court
-- overlap, every hold has an end, no booking with a verified payment is still a hold, and identifiers
-- are unique.
pub Reach-IsSound : {db db' : Db} → Reach db db' → IsSound db → IsSound db'
Reach-IsSound here sound = sound
Reach-IsSound (later run step) sound = Step-IsSound step (Reach-IsSound run sound)

clash_symm : (a b : BookingRow) → clash a b ≡ false → clash b a ≡ false
unfolding clash
clash_symm a b h = ground arith

-- Two rows of a table are one, or do not clash.
members-clash :
    (rows : List BookingRow) {r s : BookingRow}
    → AllPairs clash rows
    → Any (λ x. x ≡ r) rows
    → Any (λ x. x ≡ s) rows
    → (r ≡ s) ⊎ (clash r s ≡ false)
members-clash [] h m n = elim m [ ]
members-clash (x ∷ xs) h (inl e) (inl f) = inl (sym e ∙ f)
members-clash (x ∷ xs) h (inl e) (inr n) = inr (rw (← e) (any-member (clash x) xs h.0 n))
members-clash (x ∷ xs) {r} h (inr m) (inl f) =
    inr (rw (← f) (clash_symm x r (any-member (clash x) xs h.0 m)))
members-clash (x ∷ xs) h (inr m) (inr n) = members-clash xs h.1 m n

-- At no instant do two live bookings hold the same court, whatever transactions have run.
pub no_double_booking :
    {db db' : Db} (r s : BookingRow) (t : ℕ)
    → IsSound db
    → Reach db db'
    → Any (λ x. x ≡ r) db'.bookings
    → Any (λ x. x ≡ s) db'.bookings
    → is_live r.status ≡ true
    → is_live s.status ≡ true
    → r.court_id ≡ s.court_id
    → Contains r.slot t
    → Contains s.slot t
    → r ≡ s
unfolding clash
no_double_booking {db} {db'} r s t sound run m n live_r live_s court in_r in_s =
    elim (members-clash db'.bookings (Reach-IsSound run sound).disjoint m n) [
      | inl e ↦ e
      | inr apart ↦
          let overlap : overlaps r.slot s.slot ≡ true = common_overlaps r.slot s.slot t in_r in_s in
          ground arith
    ]
