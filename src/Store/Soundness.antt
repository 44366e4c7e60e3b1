-- ===== src/Store/Soundness.antt =====
-- Every transaction of internal/postgres on bookings and payments keeps the tables sound.
pub mod Bookings
pub mod Payments
pub mod Cash
