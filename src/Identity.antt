-- ===== src/Identity.antt =====
-- The identity module (internal/identity, with its entities from internal/domain): registration,
-- login, passwords and invitations, and its handlers.
pub mod Accounts
pub mod World
pub mod Requests
pub mod Repository
pub mod Service
pub mod Reads
pub mod Entry
pub mod Reliable
pub mod Otp
pub mod Guesses
pub mod Activation
pub mod Opening
pub mod Accepting
pub mod Acceptance
pub mod Resets
pub mod Hashes
pub mod Changes
pub mod Codes
pub mod Signup
pub mod Scope
pub mod Cancellation
pub mod Lockout
pub mod Renewal
pub mod Handlers
mod Examples
