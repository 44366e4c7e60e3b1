-- ===== src/Store/Soundness/Payments/Applying.antt =====
-- What applyToBooking leaves: sound tables, and no hold of the booking.
use khel_arena.Prelude.{
  ℕ, ◌≡◌, refl, ap, inl, inr, true, false, ◌&&◌, ◌||◌, Option, none, some, String, List, [], ◌∷◌,
  arith, ◌==◌, any, All, All-map, Any, any-All, AllPairs, any-weaken, any-member, find-some,
  some-eq, Bool-cases, if-intro, option-intro,
}
use khel_arena.Domain.Errors.{Result, ok, err}
use khel_arena.Domain.Enums.{is_pending, is_confirmed, is_completed}
use khel_arena.Domain.Payment.{Payment}
use khel_arena.Store.Tables.{BookingRow, Db, has_verified, update_where}
use khel_arena.Store.Bookings.{find_booking}
use khel_arena.Store.Updates.{any-update_where_self, All-update_where}
use khel_arena.Store.Sweeps.{is_hold_of, confirm}
use khel_arena.Store.Payments.{
  apply_to_booking, apply_to_row, already_paid, pays, pays_besides, is_open_cash, fail,
  without_refund,
}
use khel_arena.Store.Invariant.{IsSound, is_paid_hold, same_booking_id, same_payment_id}
use khel_arena.Store.Changes.{payments-IsSound}
use khel_arena.Store.Soundness.Bookings.{confirm_hold-IsSound, fail-Quiet}

-- The caller's copy of a payment names the booking that the stored row names.
abbrev pub Agrees : List Payment → Payment → Type 0
Agrees payments p = All (λ q. (q.id == p.id) ≡ true → q.booking_id ≡ p.booking_id) payments

pub strangers :
    (q p : Payment)
    → q ≡ p
    → (x : Payment) → same_payment_id q x ≡ false
    → (x.id == p.id) ≡ true
    → x.booking_id ≡ p.booking_id
strangers q p e x differs h = let id : q.id ≡ p.id = ap (λ (y : Payment). y.id) e in ground arith

-- With unique identifiers, a stored payment agrees with the table.
pub member-Agrees :
    (payments : List Payment) (p : Payment)
    → AllPairs same_payment_id payments
    → Any (λ q. q ≡ p) payments
    → Agrees payments p
member-Agrees [] p unique m = tt
member-Agrees (q ∷ qs) p unique (inl e) =
    ((λ h. rw e refl), All-map (strangers q p e) qs (any-All (same_payment_id q) qs unique.0))
member-Agrees (q ∷ qs) p unique (inr m) =
    let differs : same_payment_id q p ≡ false = any-member (same_payment_id q) qs unique.0 m in
    ((λ h. ground arith), member-Agrees qs p unique.1 m)

-- With unique identifiers, the booking that is found is the only one of its identifier.
pub find_booking-no_hold :
    (rows : List BookingRow) (id : ℕ) {r : BookingRow}
    → AllPairs same_booking_id rows
    → find_booking rows id ≡ some r
    → is_pending r.status ≡ false
    → any (is_hold_of id) rows ≡ false
unfolding find_booking
find_booking-no_hold [] id unique found settled = refl
find_booking-no_hold (x ∷ xs) id {r} unique found settled = elim (Bool-cases (x.id == id)) [
  | inl same ↦
      let e : x ≡ r = some-eq (rw same at found) in
      let others : any (is_hold_of id) xs ≡ false =
        any-weaken (same_booking_id x) (is_hold_of id) (λ y h. ground arith) xs unique.0 in
      let settled_x : is_pending x.status ≡ false = rw e settled in rw (same, settled_x) others
  | inr other ↦ rw other (find_booking-no_hold xs id unique.1 (rw other at found) settled)
]

pub already_paid-has_verified :
    (payments : List Payment) (booking id : ℕ)
    → has_verified payments booking ≡ false
    → already_paid payments booking id ≡ false
unfolding already_paid pays has_verified
already_paid-has_verified payments booking id =
    any-weaken _ (pays_besides booking id) (λ q h. ground arith) payments

-- What applyToBooking leaves when it succeeds: no hold of the booking.
abbrev pub Applied : Payment → Result (Option String) × Db → Type 0
Applied p (ok reason, db) =
    IsSound db × (any (is_hold_of p.booking_id) db.bookings ≡ false) × Agrees db.payments p
Applied p (err e, db) = Unit

pub Applied-same :
    (p : Payment) (x : Result (Unit {0})) (db : Db)
    → IsSound db × (any (is_hold_of p.booking_id) db.bookings ≡ false) × Agrees db.payments p
    → Applied p (without_refund (x, db))
Applied-same p (ok u) db h = h
Applied-same p (err e) db h = tt

module _ (p : Payment) (db : Db) (sound : IsSound db) (agrees : Agrees db.payments p) where
  pub Applied-confirm : Applied p (without_refund (confirm p.booking_id db))
  unfolding confirm
  Applied-confirm =
      if-intro (λ x. Applied p (without_refund x)) (any (is_hold_of p.booking_id) db.bookings) _ _
        (λ held. (
          confirm_hold-IsSound p.booking_id db sound,
          any-update_where_self (is_hold_of p.booking_id) _ (λ r h. ground arith) db.bookings,
          agrees,
        ))
        (λ missing. Applied-same p _ db (sound, missing, agrees))

  pub Applied-found :
      (r : BookingRow)
      → find_booking db.bookings p.booking_id ≡ some r
      → is_pending r.status ≡ false
      → any (is_hold_of p.booking_id) db.bookings ≡ false
  Applied-found r found settled =
      find_booking-no_hold db.bookings p.booking_id sound.booking_ids found settled

  -- A booking that another payment pays for is no hold.
  pub paid-settled :
      (r : BookingRow)
      → find_booking db.bookings p.booking_id ≡ some r
      → already_paid db.payments p.booking_id p.id ≡ true
      → is_pending r.status ≡ false
  unfolding find_booking
  paid-settled r found paid =
      let (same, member) = find-some (λ x. x.id == p.booking_id) db.bookings found in
      let not_paid_hold = any-member (is_paid_hold db.payments) db.bookings sound.unpaid member in
      let named : r.id ≡ p.booking_id = ground arith in
      let unpaid : (is_pending r.status && has_verified db.payments p.booking_id) ≡ false =
        rw named at not_paid_hold in
      ground (arith, already_paid-has_verified db.payments p.booking_id p.id)

  pub close_cash-Applied :
      (held : any (is_hold_of p.booking_id) db.bookings ≡ false)
      → Applied p (
        ok none,
        record db { payments = update_where (is_open_cash p.booking_id) fail db.payments },
      )
  close_cash-Applied held = (
    payments-IsSound db _ _ (fail-Quiet (is_open_cash p.booking_id) db.bookings db.payments)
        (λ q. refl) sound,
    held,
    All-update_where (is_open_cash p.booking_id) fail
        (λ q. (q.id == p.id) ≡ true → q.booking_id ≡ p.booking_id) (λ q h k. k) db.payments agrees,
  )

  pub apply_to_row-Applied :
      (r : BookingRow)
      → find_booking db.bookings p.booking_id ≡ some r
      → Applied p (apply_to_row p r db)
  unfolding apply_to_row
  apply_to_row-Applied r found =
      if-intro (Applied p) (already_paid db.payments p.booking_id p.id) _ _
        (λ paid. (sound, Applied-found r found (paid-settled r found paid), agrees))
        λ unpaid.
          if-intro (Applied p) (is_pending r.status) _ _ (λ pending. Applied-confirm)
            λ settled.
              if-intro (Applied p) (is_confirmed r.status || is_completed r.status) _ _
                (λ stands. close_cash-Applied (Applied-found r found settled))
                λ gone. (sound, Applied-found r found settled, agrees)

  pub apply_to_booking-Applied : Applied p (apply_to_booking p db)
  unfolding apply_to_booking
  apply_to_booking-Applied =
      option-intro (Applied p) (find_booking db.bookings p.booking_id) _ _ tt apply_to_row-Applied
