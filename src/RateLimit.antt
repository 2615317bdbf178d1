-- ===== src/RateLimit.antt =====
-- internal/server/ratelimit.go: `Limiters` is the code; the other modules are proofs.
pub mod Limiters
pub mod Clients
mod Examples
