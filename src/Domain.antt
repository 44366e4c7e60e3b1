-- ===== src/Domain.antt =====
-- The rules of the business (internal/domain), one module for each file of the package.
pub mod Errors
pub mod Enums
pub mod Slot
pub mod Pricing
pub mod Text
pub mod Slug
pub mod Arena
pub mod Booking
pub mod Payment
pub mod Grid
pub mod Call
pub mod Match
pub mod Tournament
pub mod User
pub mod Word
pub mod Team
