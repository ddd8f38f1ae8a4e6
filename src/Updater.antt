-- ===== src/Updater.antt =====
-- Fetching and installing the core and the geo databases: internal/updater/updater.go.
pub mod Transport
pub mod SafeTransport
pub mod Releases
pub mod Picks
pub mod Install
pub mod Restores
pub mod Rollback
pub mod Undo
pub mod Success
pub mod Platforms
pub mod CoreInstall
pub mod Geo
pub mod Verified
mod Tests
