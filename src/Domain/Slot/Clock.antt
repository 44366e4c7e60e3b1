-- ===== src/Domain/Slot/Clock.antt =====
-- What internal/domain/slot.go and pricing.go take from the standard library's `time`: instants,
-- durations, and the fields of a date in a zone.
use khel_arena.Prelude.{
  ℕ, ◌+◌, ◌-◌, ◌*◌, ◌/◌, ◌%◌, ◌^◌, ◌≡◌, ◌<◌, min, ℤ, pos, negsuc, pos_part, neg_part, sub_ℕ, ◌==◌,
  if◌then◌else◌,
}

abbrev pub second : ℕ
second = 1_000_000_000

abbrev pub minute : ℕ
minute = 60_000_000_000

abbrev pub hour : ℕ
hour = 3_600_000_000_000

abbrev pub day : ℕ
day = 86_400_000_000_000

-- `t.Sub(u)` is a signed 64-bit count of nanoseconds, and saturates.
abbrev saturate : ℤ → ℤ
saturate (pos n) = pos (min n (2 ^ 63 - 1))
saturate (negsuc n) = negsuc (min n (2 ^ 63 - 1))

unfoldable pub sub : ℕ → ℕ → ℤ
sub t u = saturate (sub_ℕ t u)

-- `t.Add(d)`, for a result that is not before the zero time.
unfoldable pub add : ℕ → ℤ → ℕ
add t d = t + pos_part d - neg_part d

-- A `*time.Location`: `wall t` is the reading of the wall clock at the instant t, in nanoseconds
-- since 0001-01-01 00:00 on that clock; `midnight d` is `time.Date` at 00:00 of the d-th day.
pub record Location : Type 0 where
  pub wall : ℕ → ℕ
  pub midnight : ℕ → ℕ

-- A zone whose offset is the same at all times, like Asia/Kathmandu since 1986.
pub record IsFixed (loc : Location) (offset : ℕ) : Type 0 where
  pub wall_offset : (t : ℕ) → loc.wall t ≡ t + offset
  pub midnight_offset : (d : ℕ) → offset < d * day → loc.midnight d + offset ≡ d * day

-- The number of the local day; day 0 is Monday, 1 January of year 1.
unfoldable pub day_of : Location → ℕ → ℕ
day_of loc t = loc.wall t / day

unfoldable pub hour_of : Location → ℕ → ℕ
hour_of loc t = loc.wall t % day / hour

unfoldable pub minute_of : Location → ℕ → ℕ
minute_of loc t = loc.wall t % hour / minute

unfoldable pub second_of : Location → ℕ → ℕ
second_of loc t = loc.wall t % minute / second

-- `time.Weekday`: Sunday is 0.
unfoldable pub weekday_of : Location → ℕ → ℕ
unfolding day_of
weekday_of loc t = (day_of loc t + 1) % 7

-- `YearDay` of a day number, by the Gregorian cycles of 400, 100, 4 and 1 years.
unfoldable pub year_day : ℕ → ℕ
year_day d =
    let in_400 : ℕ = d % 146097 in
    let in_100 : ℕ = in_400 - 36524 * min (in_400 / 36524) 3 in
    let in_4 : ℕ = in_100 % 1461 in in_4 - 365 * min (in_4 / 365) 3 + 1

-- `YearDay` of the day before; 31 December of year 0 is the 366th day of its year.
unfoldable pub year_day_before : ℕ → ℕ
unfolding year_day
year_day_before d = if d == 0 then 366 else year_day (d - 1)
