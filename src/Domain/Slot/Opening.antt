-- ===== src/Domain/Slot/Opening.antt =====
-- `Slot.WithinOperatingHours` of internal/domain/slot.go: whether a slot fits the hours that an
-- arena publishes.
pub mod Laws
use khel_arena.Prelude.{ℕ, Bool, false, ◌&&◌, ◌||◌, not, pos, ◌==◌, if◌then◌else◌}
use khel_arena.Domain.Slot.Clock.{
  Location, day_of, hour_of, minute_of, second_of, year_day, year_day_before,
}
use khel_arena.Domain.Slot.Interval.{Slot}
use khel_arena.Domain.Slot.DayTime
use khel_arena.Domain.Slot.DayTime.{DayTime, day_time_of}

abbrev end_of_day : DayTime
end_of_day = record { hour = pos 24; minute = pos 0 }

abbrev start_of_day : DayTime
start_of_day = record { hour = pos 0; minute = pos 0 }

unfoldable pub same_local_day : Location → ℕ → ℕ → Bool
unfolding day_of
same_local_day loc a b = day_of loc a == day_of loc b

-- The slot ends at midnight, and the day before that has the start's day of the year.
unfoldable pub ends_at_midnight : Location → Slot → Bool
unfolding day_of hour_of minute_of second_of year_day year_day_before
ends_at_midnight loc s =
    hour_of loc s.end == 0
    && minute_of loc s.end == 0
    && second_of loc s.end == 0
    && year_day_before (day_of loc s.end) == year_day (day_of loc s.start)

unfoldable pub within_operating_hours : Slot → DayTime → DayTime → Location → Bool
unfolding same_local_day ends_at_midnight DayTime.equal DayTime.before DayTime.after day_time_of
within_operating_hours s opens closes loc =
    if not (same_local_day loc s.start s.end)
    then if not (ends_at_midnight loc s)
      then false
      else DayTime.equal closes end_of_day || DayTime.equal closes start_of_day
    else not (DayTime.before (day_time_of loc s.start) opens)
      && not (DayTime.after (day_time_of loc s.end) closes)
