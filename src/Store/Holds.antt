-- ===== src/Store/Holds.antt =====
-- CreateHold: the pre-check and the constraint agree, and the tables stay sound.
use khel_arena.Prelude.{
  ℕ, ◌≡◌, refl, ◌∙◌, ◌⊎◌, inl, inr, Bool, true, false, ◌||◌, ◌&&◌, not, List, ◌∷◌, arith, ◌==◌, any,
  AllPairs, any-weaken, any-or, Bool-cases, if-false,
}
use khel_arena.Domain.Errors.{ok, err}
use khel_arena.Domain.Enums.{BookingStatus}
use khel_arena.Domain.Booking.{Booking}
use khel_arena.Domain.Payment.{Payment}
use khel_arena.Store.Tables.{BookingRow, Db, clash, update_where, has_verified, passes_checks}
use khel_arena.Store.Updates.{
  any-update_where, any-update_where_self, any-update_where_same, AllPairs-update_where, in_tx-ok,
}
use khel_arena.Store.Bookings.{
  with_status, new_row, stale_at, blocks_at, release_at, insert_row, create_hold, create_hold_tx,
  taken, has_court, has_user,
}
use khel_arena.Store.Invariant.{
  IsSound, IsFreshBooking, Safe, Safe-if, in_tx-IsSound, is_unfused, is_paid_hold, same_booking_id,
}

abbrev released : BookingRow → BookingRow
released = with_status BookingStatus.cancelled

module _ (db : Db) (b : Booking) (now : ℕ) (sound : IsSound db) where
  abbrev stale : BookingRow → Bool
  stale = stale_at db.payments now b.court_id b.slot

  release-disjoint : AllPairs clash (update_where stale released db.bookings)
  unfolding clash
  release-disjoint =
      AllPairs-update_where stale released clash (λ x y h e. ground arith) (λ x y h e. ground arith)
        _ sound.disjoint

  release-fused : any is_unfused (update_where stale released db.bookings) ≡ false
  release-fused = any-update_where stale released is_unfused (λ x h e. refl) _ sound.fused

  release-unpaid : any (is_paid_hold db.payments) (update_where stale released db.bookings) ≡ false
  release-unpaid =
      any-update_where stale released (is_paid_hold db.payments) (λ x h e. refl) _ sound.unpaid

  release-booking_ids : AllPairs same_booking_id (update_where stale released db.bookings)
  release-booking_ids =
      AllPairs-update_where stale released same_booking_id (λ x y h e. e) (λ x y h e. e) _
        sound.booking_ids

  release_at-IsSound : IsSound (release_at b now db)
  unfolding release_at
  release_at-IsSound = record {
    disjoint = release-disjoint;
    fused = release-fused;
    unpaid = release-unpaid;
    booking_ids = release-booking_ids;
    payment_ids = sound.payment_ids;
  }

  abbrev stale_or_blocking : BookingRow → Bool
  stale_or_blocking x = stale x || blocks_at now b.court_id b.slot x

  abbrev hold_or_blocking : BookingRow → Bool
  hold_or_blocking x = is_paid_hold db.payments x || stale_or_blocking x

  -- A row that is no endless or paid hold, is not stale, and does not block the slot.
  free :
      (id : ℕ) (x : BookingRow)
      → (is_unfused x || hold_or_blocking x) ≡ false
      → clash (new_row b id now) x ≡ false
  unfolding clash blocks_at stale_at
  free id x h = ground arith

  release_at-none_stale : any stale (update_where stale released db.bookings) ≡ false
  unfolding stale_at
  release_at-none_stale = any-update_where_self stale released (λ x h. ground arith) _

  release_at-free :
      (id : ℕ)
      → any (blocks_at now b.court_id b.slot) (release_at b now db).bookings ≡ false
      → any (clash (new_row b id now)) (release_at b now db).bookings ≡ false
  unfolding release_at
  release_at-free id h =
      let rows = update_where stale released db.bookings in
      let blocking = any-or stale (blocks_at now b.court_id b.slot) rows release_at-none_stale h in
      let held = any-or (is_paid_hold db.payments) stale_or_blocking rows release-unpaid blocking in
      any-weaken (λ x. is_unfused x || hold_or_blocking x) (clash (new_row b id now)) (free id) rows
        (any-or is_unfused hold_or_blocking rows release-fused held)

-- Releasing stale holds does not change whether the slot is blocked.
release_at-blocks :
    (db : Db) (b : Booking) (now : ℕ)
    → any (blocks_at now b.court_id b.slot) (release_at b now db).bookings
      ≡ any (blocks_at now b.court_id b.slot) db.bookings
unfolding release_at blocks_at stale_at
release_at-blocks db b now =
    any-update_where_same (stale_at db.payments now b.court_id b.slot) released
      (blocks_at now b.court_id b.slot) (λ x h. ground arith) db.bookings

-- The booking is one that the constraints let in: its checks pass, and its court and player exist.
abbrev pub IsStorable : Db → Booking → Type 0
IsStorable db b =
    (passes_checks (new_row b 0 0) ≡ true)
    × (has_court db.courts b.court_id ≡ true)
    × (has_user db.users b.user_id ≡ true)

insert_row-ok :
    (db : Db) (b : Booking) (id now : ℕ)
    → IsStorable db b
    → any (clash (new_row b id now)) db.bookings ≡ false
    → insert_row (new_row b id now) db
      ≡ (ok (new_row b id now).booking, record db { bookings = new_row b id now ∷ db.bookings })
unfolding insert_row
insert_row-ok db b id now h free = ground arith

abbrev pub stored : Booking → ℕ → ℕ → Db → Db
stored b id now db = record db { bookings = new_row b id now ∷ (release_at b now db).bookings }

create_hold_tx_free :
    (db : Db) (b : Booking) (id now : ℕ)
    → IsSound db
    → IsStorable db b
    → any (blocks_at now b.court_id b.slot) db.bookings ≡ false
    → create_hold_tx b id now db ≡ (ok (new_row b id now).booking, stored b id now db)
unfolding create_hold_tx release_at
create_hold_tx_free db b id now sound storable h =
    let none_blocks = release_at-blocks db b now ∙ h in
    let no_clash = release_at-free db b now sound id none_blocks in
    if-false _ _ none_blocks ∙ insert_row-ok (release_at b now db) b id now storable no_clash

pub create_hold_free :
    (db : Db) (b : Booking) (id now : ℕ)
    → IsSound db
    → IsStorable db b
    → any (blocks_at now b.court_id b.slot) db.bookings ≡ false
    → create_hold b id now db ≡ (ok (new_row b id now).booking, stored b id now db)
unfolding create_hold
create_hold_free db b id now sound storable h =
    in_tx-ok (create_hold_tx b id now) db (create_hold_tx_free db b id now sound storable h)

create_hold-taken :
    (db : Db) (b : Booking) (id now : ℕ)
    → any (blocks_at now b.court_id b.slot) db.bookings ≡ true
    → create_hold b id now db ≡ (err taken, db)
unfolding create_hold create_hold_tx
create_hold-taken db b id now h = ground (arith, release_at-blocks db b now)

new_row-fused :
    (b : Booking) (id now : ℕ) (rows : List BookingRow)
    → not (passes_checks (new_row b id now)) ≡ false
    → any is_unfused rows ≡ false
    → any is_unfused (new_row b id now ∷ rows) ≡ false
unfolding passes_checks
new_row-fused b id now rows h k = ground arith

new_row-unpaid :
    (b : Booking) (id now : ℕ) (payments : List Payment) (rows : List BookingRow)
    → has_verified payments id ≡ false
    → any (is_paid_hold payments) rows ≡ false
    → any (is_paid_hold payments) (new_row b id now ∷ rows) ≡ false
new_row-unpaid b id now payments rows h k = ground arith

-- The new row keeps the tables sound where the constraints let it in.
insert_row-Safe :
    (db : Db) (b : Booking) (id now : ℕ)
    → IsSound db
    → IsFreshBooking db id
    → Safe (insert_row (new_row b id now) db)
unfolding insert_row
insert_row-Safe db b id now sound fresh =
    Safe-if (not (passes_checks (new_row b id now))) _ _ (λ h. tt)
      λ checks.
        Safe-if (any (clash (new_row b id now)) db.bookings) _ _ (λ h. tt)
          λ apart.
            Safe-if (not (has_court db.courts b.court_id && has_user db.users b.user_id)) _ _
              (λ h. tt)
              λ known. record {
                disjoint = (apart, sound.disjoint);
                fused = new_row-fused b id now db.bookings checks sound.fused;
                unpaid = new_row-unpaid b id now db.payments db.bookings fresh.unnamed sound.unpaid;
                booking_ids = (fresh.unused, sound.booking_ids);
                payment_ids = sound.payment_ids;
              }

release_at-fresh :
    (db : Db) (b : Booking) (id now : ℕ)
    → IsFreshBooking db id
    → IsFreshBooking (release_at b now db) id
unfolding release_at
release_at-fresh db b id now fresh = record {
  unused =
      any-update_where (stale_at db.payments now b.court_id b.slot) released (λ r. id == r.id)
        (λ x h e. e) db.bookings fresh.unused;
  unnamed = fresh.unnamed;
}

-- CreateHold keeps the tables sound, whatever it answers.
pub create_hold-IsSound :
    (db : Db) (b : Booking) (id now : ℕ)
    → IsSound db
    → IsFreshBooking db id
    → IsSound (create_hold b id now db).1
unfolding create_hold create_hold_tx
create_hold-IsSound db b id now sound fresh = in_tx-IsSound (create_hold_tx b id now) db sound (
    Safe-if (any (blocks_at now b.court_id b.slot) (release_at b now db).bookings) _ _ (λ h. tt)
      λ h.
        insert_row-Safe (release_at b now db) b id now (release_at-IsSound db b now sound)
          (release_at-fresh db b id now fresh))

-- On sound tables, a storable booking is stored exactly if no booking of its court that overlaps it
-- blocks its slot now; so the constraint never answers in place of the pre-check. If it is stored,
-- it is the only change besides stale holds being released; if not, nothing changes.
pub create_hold_iff_free :
    (db : Db) (b : Booking) (id now : ℕ)
    → IsSound db
    → IsStorable db b
    → (any (blocks_at now b.court_id b.slot) db.bookings ≡ false)
        × (create_hold b id now db ≡ (ok (new_row b id now).booking, stored b id now db))
      ⊎ (any (blocks_at now b.court_id b.slot) db.bookings ≡ true)
        × (create_hold b id now db ≡ (err taken, db))
create_hold_iff_free db b id now sound storable =
    elim (Bool-cases (any (blocks_at now b.court_id b.slot) db.bookings)) [
      | inl held ↦ inr (held, create_hold-taken db b id now held)
      | inr free ↦ inl (free, create_hold_free db b id now sound storable free)
    ]
