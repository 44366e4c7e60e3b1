-- ===== src/Domain/Slot/DayTime.antt =====
-- The `DayTime` of internal/domain/slot.go: a wall-clock time of day with no date.
use khel_arena.Prelude.{
  ℕ, Bool, ◌&&◌, ◌||◌, not, Option, none, some, ℤ, pos, ◌+ℤ◌, ◌*ℤ◌, ltb_ℤ, eq_ℤ, if◌then◌else◌,
}
use khel_arena.Domain.Errors.{FieldError}
use khel_arena.Domain.Slot.Clock.{Location, hour_of, minute_of}

pub record DayTime : Type 0 where
  pub hour : ℤ
  pub minute : ℤ

unfoldable pub day_time_of : Location → ℕ → DayTime
unfolding hour_of minute_of
day_time_of loc t = record { hour = pos (hour_of loc t); minute = pos (minute_of loc t) }

unfoldable pub validate : DayTime → Option FieldError
validate d =
    if ltb_ℤ d.hour (pos 0) || ltb_ℤ (pos 24) d.hour
    then some (record { field = "time"; message = "Hour must be between 0 and 24." })
    else if ltb_ℤ d.minute (pos 0) || ltb_ℤ (pos 59) d.minute
    then some (record { field = "time"; message = "Minute must be between 0 and 59." })
    else if eq_ℤ d.hour (pos 24) && not (eq_ℤ d.minute (pos 0))
    then some (record { field = "time"; message = "24:00 is the latest possible time of day." })
    else none

unfoldable pub minutes : DayTime → ℤ
unfolding ◌+ℤ◌ ◌*ℤ◌
minutes d = d.hour *ℤ pos 60 +ℤ d.minute

unfoldable pub before : DayTime → DayTime → Bool
unfolding minutes
before d o = ltb_ℤ (minutes d) (minutes o)

unfoldable pub after : DayTime → DayTime → Bool
unfolding minutes
after d o = ltb_ℤ (minutes o) (minutes d)

unfoldable pub equal : DayTime → DayTime → Bool
unfolding minutes
equal d o = eq_ℤ (minutes d) (minutes o)
