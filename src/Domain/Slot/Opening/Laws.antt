-- ===== src/Domain/Slot/Opening/Laws.antt =====
-- Which slots an arena's hours let in.
use khel_arena.Prelude.{
  ℕ, ◌+◌, ◌*◌, ◌≡◌, ◌↔◌, refl, true, false, not, ◌&&◌, ◌||◌, arith, pos, pos-add, pos-mul, ◌≤ℤ◌, ℤ,
  eq_ℤ, Bool, ltb_ℤ, ltb, ◌%◌, ◌/◌, ◌-◌, ◌≤◌, ◌<◌, ◌⊎◌, ◌==◌, false,
}
use khel_arena.Domain.Slot.Clock.{
  Location, IsFixed, day, second, day_of, hour_of, minute_of, second_of, year_day, year_day_before,
}
use khel_arena.Domain.Slot.Interval.{Slot, min_booking_duration, max_booking_duration}
use khel_arena.Domain.Slot.Interval.Laws.{IsBookable}
use khel_arena.Domain.Slot.DayTime.{DayTime, minutes, before, after, equal, day_time_of}
use khel_arena.Domain.Slot.Opening.{
  same_local_day, ends_at_midnight, within_operating_hours, end_of_day, start_of_day,
}

-- The minute of the local day.
abbrev pub minute_of_day : Location → ℕ → ℕ
minute_of_day loc t = hour_of loc t * 60 + minute_of loc t

minutes-day_time_of :
    (loc : Location) (t : ℕ) → minutes (day_time_of loc t) ≡ pos (minute_of_day loc t)
unfolding minutes day_time_of
minutes-day_time_of loc t = rw (pos-mul, pos-add) refl

within_eq :
    (s : Slot) (opens closes : DayTime) (loc : Location)
    → same_local_day loc s.start s.end ≡ true
    → within_operating_hours s opens closes loc ≡ (
        not (ltb_ℤ (pos (minute_of_day loc s.start)) (minutes opens))
        && not (ltb_ℤ (minutes closes) (pos (minute_of_day loc s.end))))
unfolding within_operating_hours before after
within_eq s opens closes loc one_day =
    rw (one_day, minutes-day_time_of loc s.start, minutes-day_time_of loc s.end) refl

-- A slot within one local day is let in exactly if the minute that it starts in is not before opening
-- and the minute that it ends in is not after closing.
pub within_same_day :
    (s : Slot) (opens closes : DayTime) (loc : Location)
    → same_local_day loc s.start s.end ≡ true
    → (within_operating_hours s opens closes loc ≡ true) ↔ (
        (minutes opens ≤ℤ pos (minute_of_day loc s.start))
        × (pos (minute_of_day loc s.end) ≤ℤ minutes closes))
within_same_day s opens closes loc one_day =
    rw (within_eq s opens closes loc one_day) (ground arith)

year_day_before-day : (d e : ℕ) → e ≡ d + 1 → year_day_before e ≡ year_day d
unfolding year_day_before
year_day_before-day d e h = let back : d + 1 - 1 ≡ d = omega arith in rw (h, back) (ground arith)

-- The first second of a local day.
at_midnight :
    (loc : Location) (t : ℕ)
    → (hour_of loc t == 0 && minute_of loc t == 0 && second_of loc t == 0)
      ≡ ltb (loc.wall t % day) second
unfolding hour_of minute_of second_of
at_midnight loc t = ground arith

following_day :
    (start end offset : ℕ)
    → start + min_booking_duration ≤ end
    → end ≤ start + max_booking_duration
    → ((start + offset) / day == (end + offset) / day) ≡ false
    → (end + offset) / day ≡ (start + offset) / day + 1
following_day start end offset shortest longest crosses = ground arith

-- A bookable slot that crosses into another local day crosses into the next one.
next_day :
    (s : Slot) (loc : Location) (offset : ℕ)
    → IsBookable s
    → IsFixed loc offset
    → same_local_day loc s.start s.end ≡ false
    → day_of loc s.end ≡ day_of loc s.start + 1
unfolding same_local_day day_of
next_day s loc offset v fixed crosses =
    let starts = fixed.wall_offset s.start in
    let ends = fixed.wall_offset s.end in
    rw (starts, ends)
      (following_day s.start s.end offset v.shortest v.longest (rw (starts, ends) at crosses))

ends_at_midnight-ltb :
    (s : Slot) (loc : Location)
    → day_of loc s.end ≡ day_of loc s.start + 1
    → ends_at_midnight loc s ≡ ltb (loc.wall s.end % day) second
unfolding ends_at_midnight
ends_at_midnight-ltb s loc next =
    let same : year_day_before (day_of loc s.end) ≡ year_day (day_of loc s.start) =
      year_day_before-day (day_of loc s.start) (day_of loc s.end) next in
    let midnight = at_midnight loc s.end in rw same (ground arith)

equal-end_of_day : (d : DayTime) → equal d end_of_day ≡ eq_ℤ (minutes d) (pos 1440)
unfolding equal minutes
equal-end_of_day d = refl

equal-start_of_day : (d : DayTime) → equal d start_of_day ≡ eq_ℤ (minutes d) (pos 0)
unfolding equal minutes
equal-start_of_day d = refl

crossing_eq :
    (s : Slot) (opens closes : DayTime) (loc : Location)
    → same_local_day loc s.start s.end ≡ false
    → day_of loc s.end ≡ day_of loc s.start + 1
    → within_operating_hours s opens closes loc ≡ (
        ltb (loc.wall s.end % day) second
        && (eq_ℤ (minutes closes) (pos 1440) || eq_ℤ (minutes closes) (pos 0)))
unfolding within_operating_hours
crossing_eq s opens closes loc crosses next =
    let midnight = ends_at_midnight-ltb s loc next in
    rw (crosses, equal-end_of_day closes, equal-start_of_day closes, midnight) (ground arith)

closing :
    (at_end : Bool) (t : ℕ) (closes : ℤ)
    → at_end ≡ ltb t second
    → ((at_end && (eq_ℤ closes (pos 1440) || eq_ℤ closes (pos 0))) ≡ true)
      ↔ ((t < second) × ((closes ≡ pos 1440) ⊎ (closes ≡ pos 0)))
closing at_end t closes h = ground arith

-- In a zone of fixed offset, a bookable slot that crosses into another local day is let in exactly if
-- it ends within the first second of that day and the arena closes at midnight, as 24:00 or 00:00.
-- When the arena opens plays no part, so a slot that begins before opening is let in as well.
pub within_to_midnight :
    (s : Slot) (opens closes : DayTime) (loc : Location) (offset : ℕ)
    → IsBookable s
    → IsFixed loc offset
    → same_local_day loc s.start s.end ≡ false
    → (within_operating_hours s opens closes loc ≡ true)
      ↔ ((loc.wall s.end % day < second) × ((minutes closes ≡ pos 1440) ⊎ (minutes closes ≡ pos 0)))
within_to_midnight s opens closes loc offset v fixed crosses =
    let next = next_day s loc offset v fixed crosses in
    rw (crossing_eq s opens closes loc crosses next)
      (closing (ltb (loc.wall s.end % day) second) (loc.wall s.end % day) (minutes closes) refl)
