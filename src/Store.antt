-- ===== src/Store.antt =====
-- internal/postgres: the tables, and what each repository's statements do to them.
pub mod Tables
pub mod Updates
pub mod Invariant
pub mod Changes
pub mod Tenure
pub mod Holds
pub mod Soundness
pub mod Bookings
pub mod Cancellation
pub mod Sweeps
pub mod Payments
pub mod Cash
pub mod Settling
pub mod Ranges
pub mod Standing
pub mod Calls
pub mod Matches
pub mod Sessions
pub mod Accounts
pub mod Squads
pub mod Brackets
pub mod Venues
pub mod Reviews
