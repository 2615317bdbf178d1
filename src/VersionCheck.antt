-- ===== src/VersionCheck.antt =====
-- internal/versioncheck/service.go: the latest release of the client and whether a version is older.
-- `Semver` is the comparison, `Service` the cached release; `Order` is proofs.
pub mod Semver
pub mod Service
pub mod Order
mod Examples
