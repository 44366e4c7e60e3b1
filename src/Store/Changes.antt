-- ===== src/Store/Changes.antt =====
-- Which changes of a row keep the tables sound, so that each statement has only to be such a change.
use khel_arena.Prelude.{
  ◌≡◌, refl, ◌⊎◌, inl, inr, Bool, true, false, List, [], ◌∷◌, arith, any, All, All-map, Bool-cases,
}
use khel_arena.Domain.Enums.{is_pending, is_live, is_verified}
use khel_arena.Domain.Payment.{Payment}
use khel_arena.Store.Tables.{BookingRow, Db, clash, update_where, has_verified}
use khel_arena.Store.Sweeps.{is_hold_of}
use khel_arena.Store.Updates.{any-update_where, AllPairs-update_where}
use khel_arena.Store.Invariant.{IsSound, is_unfused, is_paid_hold, same_booking_id, same_payment_id}

-- The row is the same booking, is not revived, and is a hold only if it was one.
pub record IsMild (r r' : BookingRow) : Type 0 where
  pub same_id : r'.id ≡ r.id
  pub same_court : r'.court_id ≡ r.court_id
  pub same_slot : r'.slot ≡ r.slot
  pub not_revived : is_live r.status ≡ false → is_live r'.status ≡ false
  pub still_fused : is_unfused r ≡ false → is_unfused r' ≡ false
  pub not_rehung : is_pending r.status ≡ false → is_pending r'.status ≡ false

module _ {r r' : BookingRow} (mild : IsMild r r') where
  mild-clash-left : (y : BookingRow) → clash r y ≡ false → clash r' y ≡ false
  unfolding clash
  mild-clash-left y h = ground arith

  mild-clash-right : (x : BookingRow) → clash x r ≡ false → clash x r' ≡ false
  unfolding clash
  mild-clash-right x h = ground arith

  mild-paid :
      (payments : List Payment) → is_paid_hold payments r ≡ false → is_paid_hold payments r' ≡ false
  mild-paid payments h = rw mild.same_id (ground arith)

-- An UPDATE of bookings that changes each row mildly keeps the tables sound.
pub bookings-IsSound :
    (db : Db) (p : BookingRow → Bool) (f : BookingRow → BookingRow)
    → ((r : BookingRow) → p r ≡ true → IsMild r (f r))
    → IsSound db
    → IsSound (record db { bookings = update_where p f db.bookings })
bookings-IsSound db p f mild sound = record {
  disjoint =
      AllPairs-update_where p f clash (λ x y h. mild-clash-left (mild x h) y)
        (λ x y h. mild-clash-right (mild y h) x) db.bookings sound.disjoint;
  fused = any-update_where p f is_unfused (λ x h. (mild x h).still_fused) db.bookings sound.fused;
  unpaid =
      any-update_where p f (is_paid_hold db.payments) (λ x h. mild-paid (mild x h) db.payments)
        db.bookings sound.unpaid;
  booking_ids =
      AllPairs-update_where p f same_booking_id (λ x y h e. rw ((mild x h).same_id) e)
        (λ x y h e. rw ((mild y h).same_id) e) db.bookings sound.booking_ids;
  payment_ids = sound.payment_ids;
}

-- The payment keeps its identity, and becomes verified only if its booking is no hold.
pub record IsQuiet (rows : List BookingRow) (q q' : Payment) : Type 0 where
  pub same_id : q'.id ≡ q.id
  pub same_booking : q'.booking_id ≡ q.booking_id
  pub verified_before :
      is_verified q'.status ≡ true
      → (is_verified q.status ≡ true) ⊎ (any (is_hold_of q.booking_id) rows ≡ false)

IsQuiet-head :
    (r : BookingRow) (rows : List BookingRow) (q : Payment) {q' : Payment}
    → IsQuiet (r ∷ rows) q q'
    → IsQuiet (r ∷ []) q q'
IsQuiet-head r rows q quiet = ground arith

IsQuiet-tail :
    (r : BookingRow) (rows : List BookingRow) (q : Payment) {q' : Payment}
    → IsQuiet (r ∷ rows) q q'
    → IsQuiet rows q q'
IsQuiet-tail r rows q quiet = ground arith

module _ (p : Payment → Bool) (g : Payment → Payment) where
  -- Each changed row is quiet towards the bookings.
  abbrev pub Quiet : List BookingRow → Payment → Type 0
  Quiet rows q = p q ≡ true → IsQuiet rows q (g q)

  -- The verified payments of a booking that is a hold are those that it had.
  has_verified-update :
      (r : BookingRow) (payments : List Payment)
      → is_pending r.status ≡ true
      → All (Quiet (r ∷ [])) payments
      → has_verified payments r.id ≡ false
      → has_verified (update_where p g payments) r.id ≡ false
  unfolding has_verified
  has_verified-update r [] pending quiet h = refl
  has_verified-update r (q ∷ qs) pending quiet h =
      let rest : has_verified (update_where p g qs) r.id ≡ false =
        has_verified-update r qs pending quiet.1 (ground arith) in
      elim (Bool-cases (p q)) [
        | inl hit ↦ rw hit (ground (arith, quiet.0 hit))
        | inr miss ↦ rw miss (ground arith)
      ]

  paid_hold-update :
      (rows : List BookingRow) (payments : List Payment)
      → All (Quiet rows) payments
      → any (is_paid_hold payments) rows ≡ false
      → any (is_paid_hold (update_where p g payments)) rows ≡ false
  paid_hold-update [] payments quiet h = refl
  paid_hold-update (r ∷ rows) payments quiet h =
      let here : All (Quiet (r ∷ [])) payments =
        All-map (λ q k hit. IsQuiet-head r rows q (k hit)) payments quiet in
      let later : All (Quiet rows) payments =
        All-map (λ q k hit. IsQuiet-tail r rows q (k hit)) payments quiet in
      let rest : any (is_paid_hold (update_where p g payments)) rows ≡ false =
        paid_hold-update rows payments later (ground arith) in
      elim (Bool-cases (is_pending r.status)) [
        | inl pending ↦
            let h₁ : has_verified payments r.id ≡ false = ground arith in
            let h₂ = has_verified-update r payments pending here h₁ in rw (pending, h₂) rest
        | inr settled ↦ rw settled rest
      ]

-- An UPDATE of payments that is quiet towards the bookings keeps the tables sound.
pub payments-IsSound :
    (db : Db) (p : Payment → Bool) (g : Payment → Payment)
    → All (Quiet p g db.bookings) db.payments
    → ((q : Payment) → (g q).id ≡ q.id)
    → IsSound db
    → IsSound (record db { payments = update_where p g db.payments })
payments-IsSound db p g quiet same_id sound = record {
  disjoint = sound.disjoint;
  fused = sound.fused;
  unpaid = paid_hold-update p g db.bookings db.payments quiet sound.unpaid;
  booking_ids = sound.booking_ids;
  payment_ids =
      AllPairs-update_where p g same_payment_id (λ x y h e. rw (same_id x) e)
        (λ x y h e. rw (same_id y) e) db.payments sound.payment_ids;
}
