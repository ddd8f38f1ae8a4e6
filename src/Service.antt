-- ===== src/Service.antt =====
-- internal/service/service.go: the privileged service and its one session at a time.
pub mod State
pub mod Sections
pub mod Requests
pub mod Threads
pub mod Invariant
pub mod Preservation
pub mod Turns
pub mod Interleavings
pub mod Guarantees
pub mod Endings
pub mod Checks
pub mod Privacy
pub mod GeoStore
pub mod GeoUploads
pub mod GeoRoom
pub mod GeoPlaces
pub mod GeoGuarantees
pub mod GeoPinned
pub mod GeoMissing
mod Tests
mod GeoTests
