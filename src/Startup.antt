-- ===== src/Startup.antt =====
-- The pipeline of Start in witchcraft/witchcraft.go: its phases in their order, the functions that
-- it defers, and what it does with errors and panics.
pub mod Action
pub mod Start
pub mod Finish
pub mod Cleanups
pub mod Plan
pub mod Reports
pub mod Health
mod Tests
