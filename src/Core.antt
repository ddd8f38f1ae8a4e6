-- ===== src/Core.antt =====
-- The core process and its health: internal/xray/runner.go and internal/app/health.go.
pub mod Runner
pub mod Retry
pub mod Health
pub mod Views
pub mod Freshness
pub mod Restarts
mod Tests
