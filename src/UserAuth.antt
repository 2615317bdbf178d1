-- ===== src/UserAuth.antt =====
-- internal/userauth: accounts, sessions, API keys and one-time codes. `Store` is sqlite.go with the
-- structs of store.go, one module for each table; `Failures`, `Outside`, `Tokens`, `Keys`, `Codes` and
-- `Accounts` are service.go; the other modules are proofs.
pub mod Store
pub mod Failures
pub mod Outside
pub mod Tokens
pub mod Keys
pub mod Codes
pub mod Digits
pub mod Accounts
pub mod Verify
pub mod KeyLife
pub mod Rotation
pub mod Guesses
pub mod SendLimit
pub mod Passwords
pub mod Changes
pub mod Profiles
mod Examples
