-- ===== src/Security.antt =====
-- internal/platform/security/security.go: claims and tokens, and the guards in front of the routes.
-- The signing of claims (golang-jwt), the hashing of passwords (bcrypt) are parameters.
pub mod Guards
pub mod Refusals
pub mod Sample
mod Examples
