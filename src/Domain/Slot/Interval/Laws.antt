-- ===== src/Domain/Slot/Interval/Laws.antt =====
-- What `Slot` promises: which slots are valid, what an overlap is, and how hours are billed.
use khel_arena.Prelude.{ℕ, ◌+◌, ◌-◌, ◌*◌, ◌/◌, ◌≤◌, ◌<◌, ◌≡◌, ◌↔◌, true, none, arith, pos, max}
use khel_arena.Domain.Errors.{ok}
use khel_arena.Domain.Slot.Clock.{hour}
use khel_arena.Domain.Slot.Interval.{
  Slot, validate, new_slot, hours, overlaps, min_booking_duration, max_booking_duration,
}

-- The slots that a booking may have.
pub record IsBookable (s : Slot) : Type 0 where
  pub dated : 0 < s.start
  pub shortest : s.start + min_booking_duration ≤ s.end
  pub longest : s.end ≤ s.start + max_booking_duration

validate-IsBookable : (s : Slot) → validate s ≡ none → IsBookable s
unfolding validate
validate-IsBookable s h = ground arith

IsBookable-validate : (s : Slot) → IsBookable s → validate s ≡ none
unfolding validate
IsBookable-validate s h = ground arith

-- `Validate` passes exactly the slots that start after the zero time and last from 30 minutes to
-- 4 hours.
pub validate_iff : (s : Slot) → (validate s ≡ none) ↔ IsBookable s
validate_iff s = (validate-IsBookable s, IsBookable-validate s)

-- `NewSlot` returns only slots that a booking may have, and with the instants that it was given.
pub new_slot-IsBookable :
    (start end : ℕ) {s : Slot}
    → new_slot start end ≡ ok s
    → IsBookable s × (s.start ≡ start) × (s.end ≡ end)
unfolding new_slot
new_slot-IsBookable start end h = ground arith

-- An instant of the half-open interval.
abbrev pub Contains : Slot → ℕ → Type 0
Contains s t = (s.start ≤ t) × (t < s.end)

overlaps_common :
    (a b : Slot)
    → a.start < a.end
    → b.start < b.end
    → overlaps a b ≡ true
    → (t : ℕ) × Contains a t × Contains b t
unfolding overlaps
overlaps_common a b ha hb h =
    (max a.start b.start, (omega arith, ground arith), (omega arith, ground arith))

pub common_overlaps : (a b : Slot) (t : ℕ) → Contains a t → Contains b t → overlaps a b ≡ true
unfolding overlaps
common_overlaps a b t ha hb = ground arith

-- Two slots that are not empty overlap exactly if they share an instant, so slots that only touch
-- do not.
pub overlaps_iff :
    (a b : Slot)
    → a.start < a.end
    → b.start < b.end
    → (overlaps a b ≡ true) ↔ ((t : ℕ) × Contains a t × Contains b t)
overlaps_iff a b ha hb =
    (overlaps_common a b ha hb, λ (t, in_a, in_b). common_overlaps a b t in_a in_b)

pub overlaps_symm : (a b : Slot) → overlaps a b ≡ overlaps b a
unfolding overlaps
overlaps_symm a b = ground arith

hours_ceiling : (s : Slot) → IsBookable s → hours s ≡ pos ((s.end - s.start - 1) / hour + 1)
unfolding hours
hours_ceiling s v = ground arith

-- A bookable slot is charged for the fewest whole hours that cover it: from one to four.
pub hours_cover :
    (s : Slot)
    → IsBookable s
    → (h : ℕ) × (hours s ≡ pos (h + 1))
      × (s.start + h * hour < s.end)
      × (s.end ≤ s.start + (h + 1) * hour)
      × (h < 4)
hours_cover s v = (
  (s.end - s.start - 1) / hour,
  hours_ceiling s v,
  omega (arith, v.shortest),
  omega (arith, v.shortest),
  omega (arith, v.longest),
)
