-- ===== src/Identity/Service.antt =====
-- The operations of internal/identity/service.go.
pub mod Tokens
pub mod Registration
pub mod Login
pub mod Passwords
pub mod Invitations
