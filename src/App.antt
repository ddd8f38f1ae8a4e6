-- ===== src/App.antt =====
-- The sessions of internal/app.
pub mod Lifecycle
pub mod Protection
pub mod Steady
pub mod Sessions
mod Tests
