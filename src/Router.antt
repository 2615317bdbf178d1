-- ===== src/Router.antt =====
-- internal/router: the routes to the agents. `Table` is table.go, `Engine` is engine.go; the other
-- modules are proofs.
pub mod Table
pub mod Engine
pub mod Routes
pub mod Refinement
pub mod Best
pub mod Watchers
mod Sorting
mod Examples
