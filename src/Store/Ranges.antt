-- ===== src/Store/Ranges.antt =====
-- BookedRanges of internal/postgres/availability.go, and its agreement with the check of CreateHold.
use khel_arena.Prelude.{
  ℕ, ◌≤◌, ◌≡◌, refl, Bool, ◌&&◌, ◌||◌, List, [], ◌∷◌, map, arith, leb, any, filter, if◌then◌else◌,
  Bool-cases, inl, inr,
}
use khel_arena.Domain.Slot.Interval.{Slot, overlaps}
use khel_arena.Store.Tables.{BookingRow, Db}
use khel_arena.Store.Bookings.{blocks_at}
use khel_arena.Domain.Grid.{overlaps_any}

-- `order by lower(slot)`
unfoldable pub insert_slot : Slot → List Slot → List Slot
insert_slot s [] = s ∷ []
insert_slot s (t ∷ ts) =
    let rest = insert_slot s ts in if leb s.start t.start then s ∷ t ∷ ts else t ∷ rest

unfoldable pub order_slots : List Slot → List Slot
unfolding insert_slot
order_slots [] = []
order_slots (s ∷ ss) = insert_slot s (order_slots ss)

abbrev row_slot : BookingRow → Slot
row_slot r = r.slot

unfoldable pub booked_ranges : Db → ℕ → Slot → ℕ → List Slot
unfolding order_slots blocks_at
booked_ranges db court window now =
    order_slots (map row_slot (filter (blocks_at now court window) db.bookings))

any-insert_slot :
    (p : Slot → Bool) (s : Slot) (ts : List Slot) → any p (insert_slot s ts) ≡ (p s || any p ts)
unfolding insert_slot
any-insert_slot p s [] = refl
any-insert_slot p s (t ∷ ts) = ground (arith, any-insert_slot p s ts)

any-order_slots : (p : Slot → Bool) (ts : List Slot) → any p (order_slots ts) ≡ any p ts
unfolding order_slots
any-order_slots p [] = refl
any-order_slots p (t ∷ ts) = rw (any-insert_slot p t (order_slots ts), any-order_slots p ts) refl

module _ (court now : ℕ) (window slot : Slot) (from : window.start ≤ slot.start)
    (to : slot.end ≤ window.end) where
  one_row :
      (r : BookingRow)
      → (blocks_at now court window r && overlaps slot r.slot) ≡ blocks_at now court slot r
  unfolding blocks_at overlaps
  one_row r = ground arith

  any-blocks :
      (rows : List BookingRow)
      → any (overlaps slot) (map row_slot (filter (blocks_at now court window) rows))
        ≡ any (blocks_at now court slot) rows
  any-blocks [] = refl
  any-blocks (r ∷ rows) = elim (Bool-cases (blocks_at now court window r)) [
    | inl kept ↦ let row = one_row r in rw (kept, any-blocks rows) (ground (arith))
    | inr dropped ↦ let row = one_row r in rw (dropped, any-blocks rows) (ground (arith))
  ]

  -- Within the window that was asked about, a slot overlaps a booked range exactly if the check of
  -- CreateHold would find it blocked at that instant: the grid and the booking path agree.
  pub booked_ranges-blocks :
      (db : Db)
      → overlaps_any slot (booked_ranges db court window now)
        ≡ any (blocks_at now court slot) db.bookings
  unfolding overlaps_any booked_ranges
  booked_ranges-blocks db = rw (any-order_slots, any-blocks db.bookings) refl
