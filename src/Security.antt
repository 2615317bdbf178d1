-- ===== src/Security.antt =====
-- internal/security/urlvalidator.go: `Url` is the code, `Safety` its proofs.
pub mod Url
pub mod Safety
mod Examples
