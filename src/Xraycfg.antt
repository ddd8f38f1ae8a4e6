-- ===== src/Xraycfg.antt =====
-- internal/xraycfg: the rewrites of a core config.
pub mod Config
pub mod Json
pub mod Bind
pub mod Keys
pub mod Kept
pub mod Bound
pub mod Escapes
pub mod Policy
pub mod Secure
pub mod Clearing
pub mod NoInsecure
pub mod Split
pub mod Routing
pub mod SplitSafe
pub mod LocalTags
pub mod Unlisted
pub mod Listed
pub mod Bypass
mod Tests
mod BindTests
mod PolicyTests
