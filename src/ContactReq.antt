-- ===== src/ContactReq.antt =====
-- internal/contactreq: the requests of agents to be listed by each other. `Store` is sqlite.go with
-- the struct of store.go, `Service` is service.go; the other modules are proofs.
pub mod Store
pub mod Service
pub mod Invariant
pub mod Lookup
pub mod Status
pub mod Approval
mod Examples
