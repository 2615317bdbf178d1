-- ===== src/Reputation.antt =====
-- internal/reputation: the scores of the agents. `Floats` is the interface of float64, `Store` is
-- sqlite.go and `Engine` is engine.go; the other modules are proofs.
pub mod Floats
pub mod Store
pub mod Engine
pub mod Scores
pub mod Counts
mod Examples
