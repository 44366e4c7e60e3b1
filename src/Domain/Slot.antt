-- ===== src/Domain/Slot.antt =====
-- internal/domain/slot.go: the half-open interval of a booking, and the time of day. An instant
-- is the number of nanoseconds since Go's zero time, so `IsZero` is the test for 0 and no earlier
-- instant is represented.
pub mod Clock
pub mod Interval
pub mod DayTime
pub mod Opening
