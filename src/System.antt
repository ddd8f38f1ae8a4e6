-- ===== src/System.antt =====
-- The changes that a TUN session makes to the host: internal/system.
pub mod Entries
pub mod Teardown
pub mod Setup
pub mod Host
pub mod Lookup
pub mod Removal
pub mod Reversal
pub mod Accounting
pub mod Undoing
pub mod Failures
pub mod Ready
pub mod Preflight
pub mod Mortal
pub mod Crash
pub mod Journal
pub mod Restored
pub mod Readable
pub mod Recover
pub mod Leftovers
pub mod Takeover
pub mod Firewall
pub mod KillSwitch
pub mod Filters
pub mod Permits
mod Tests
mod CrashTests
mod ReadableTests
mod FirewallTests
