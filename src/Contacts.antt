-- ===== src/Contacts.antt =====
-- internal/contacts: the whitelist of each agent. `Store` is sqlite.go with the struct of store.go,
-- `Service` is service.go, `Postgres` is postgres.go; the other modules are proofs.
pub mod Store
pub mod Service
pub mod Whitelist
pub mod Invariant
pub mod Postgres
pub mod Backends
mod Examples
