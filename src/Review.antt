-- ===== src/Review.antt =====
-- internal/review: the reviews that users write of agents, and the abuse reports. `Store` and `Summary`
-- are sqlite.go with the structs of store.go, `Service` is service.go, `Reports` is both for the abuse
-- reports; the other modules are proofs.
pub mod Store
pub mod Service
pub mod Invariant
pub mod Latest
pub mod Repeats
pub mod Reports
pub mod Pending
pub mod Summary
pub mod Distribution
mod Examples
