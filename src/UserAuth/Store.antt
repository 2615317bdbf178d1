-- ===== src/UserAuth/Store.antt =====
-- internal/userauth/sqlite.go, one module for each table. The foreign keys of the schema are not
-- enforced by SQLite, which needs `PRAGMA foreign_keys` for it.
pub mod Users
pub mod Sessions
pub mod ApiKeys
pub mod Verifications
