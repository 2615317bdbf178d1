-- ===== src/HttpAuth.antt =====
-- internal/server/auth.go, the middlewares that http.go and admin_handler.go build from it, and
-- internal/identity/trust.go. `Requests`, `Agents`, `Users` and `Routes` are the code; the other modules
-- are proofs.
pub mod Requests
pub mod Agents
pub mod Users
pub mod Routes
pub mod Identity
pub mod Bridges
mod Examples
