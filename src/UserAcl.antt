-- ===== src/UserAcl.antt =====
-- internal/useracl: the access of users to agents. `Store` is sqlite.go with the struct of store.go,
-- `Service` is service.go; the other modules are proofs.
pub mod Store
pub mod Service
pub mod Invariant
pub mod Access
pub mod Handlers
pub mod Ownership
pub mod Grants
mod Examples
