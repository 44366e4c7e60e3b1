-- ===== src/Domain/Slot/Interval.antt =====
-- The `Slot` of internal/domain/slot.go: validation, billable hours, overlap, and what is past.
pub mod Laws
use khel_arena.Prelude.{
  ℕ, ◌+◌, ◌-◌, ◌/◌, ◌%◌, Bool, ◌&&◌, ◌||◌, not, Option, none, some, ℤ, pos, negsuc, sub_ℕ, ◌+ℤ◌,
  ltb, ltb_ℤ, ◌==◌, if◌then◌else◌,
}
use khel_arena.Domain.Errors.{Error, Result, ok, err, invalid, refuse, ◌>>◌}
use khel_arena.Domain.Slot.Clock.{minute, hour, sub}

abbrev pub min_booking_duration : ℕ
min_booking_duration = 1_800_000_000_000

abbrev pub max_booking_duration : ℕ
max_booking_duration = 14_400_000_000_000

abbrev pub slot_granularity : ℕ
slot_granularity = hour

abbrev pub past_slot_grace : ℕ
past_slot_grace = minute

pub record Slot : Type 0 where
  pub start : ℕ
  pub end : ℕ

unfoldable pub duration : Slot → ℤ
unfolding sub
duration s = sub s.end s.start

unfoldable pub validate : Slot → Option Error
unfolding duration
validate s =
    if s.start == 0 || s.end == 0
    then some (invalid "slot" "A start and end time are both required.")
    else if not (ltb s.start s.end)
    then some (invalid "slot" "The end time must be after the start time.")
    else if ltb_ℤ (duration s) (pos min_booking_duration)
    then some (invalid "slot" "Bookings must be at least %s long.")
    else if ltb_ℤ (pos max_booking_duration) (duration s)
    then some (invalid "slot" "Bookings are limited to %s.")
    else none

-- `NewSlot`; an instant has no zone to normalise.
unfoldable pub new_slot : ℕ → ℕ → Result Slot
unfolding validate
new_slot start end =
    let s : Slot = record { start = start; end = end } in refuse (validate s) >> ok s

-- Go's division truncates toward zero, and so does `%`.
unfoldable pub billable : ℤ → ℤ
unfolding ◌+ℤ◌
billable (pos d) = if d % hour == 0 then pos (d / hour) else pos (d / hour + 1)
billable (negsuc n) =
    let whole = sub_ℕ 0 ((n + 1) / hour) in if (n + 1) % hour == 0 then whole else whole +ℤ pos 1

unfoldable pub hours : Slot → ℤ
unfolding billable duration
hours s = billable (duration s)

unfoldable pub overlaps : Slot → Slot → Bool
overlaps s other = ltb s.start other.end && ltb other.start s.end

unfoldable pub is_past : Slot → ℕ → Bool
is_past s now = ltb s.start (now - past_slot_grace)
