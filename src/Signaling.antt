-- ===== src/Signaling.antt =====
-- internal/signaling: the hub that passes messages between connected agents. `Conns` is its table of
-- connections, `Auth` the authentication frame, `Forward` the delivery of messages, `Limiter` the rate
-- of one connection on the float64 of `Floats`; the other modules are proofs.
pub mod Conns
pub mod Sessions
pub mod Capacity
pub mod Auth
pub mod Freshness
pub mod Forward
pub mod Delivery
pub mod Floats
pub mod Limiter
pub mod Allowance
mod Examples
