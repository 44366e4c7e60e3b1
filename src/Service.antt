-- ===== src/Service.antt =====
-- internal/service: the use cases, each as the sequence of checks and writes that it makes.
pub mod Bookings
pub mod Payments
pub mod Availability
pub mod Matches
pub mod Calls
pub mod Auth
pub mod Squads
pub mod Brackets
pub mod Owner
pub mod Reviews
pub mod Runs
pub mod Tenure
