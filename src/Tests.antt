-- ===== src/Tests.antt =====
-- Runs of the model on concrete inputs.
mod Data
mod Rules
mod Tables
mod Services
mod Clubs
mod Accounts
mod Squads
mod Brackets
mod Venues
mod Reviews
