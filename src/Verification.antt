-- ===== src/Verification.antt =====
-- internal/verification: the challenge that an agent's endpoint has to answer. `Challenges` is sqlite.go
-- with the struct of store.go, `Challenger` is challenger.go with handleVerifyEndpoint of
-- internal/server/public_handlers.go, the other modules are proofs.
pub mod Challenges
pub mod Challenger
pub mod Proof
pub mod Closing
mod Examples
