-- ===== src/ClaimToken.antt =====
-- internal/claimtoken: the one-time codes that bind a user to an agent's key. `Store` is sqlite.go
-- with the struct of store.go, `Service` and `Code` are service.go, `Handler` is handleClaimAgent of
-- internal/server/claim_handler.go; the other modules are proofs.
pub mod Code
pub mod Store
pub mod Service
pub mod Invariant
pub mod Once
pub mod Limit
pub mod Handler
pub mod Tokens
pub mod OneAgent
pub mod Overlap
mod Examples
mod HandlerExamples
