-- ===== src/Identity/Repository.antt =====
-- The queries of internal/identity/repository.go, without ListActiveInstitutes, the dashboard and the
-- audit trail.
pub mod Rows
pub mod Searches
pub mod Lookups
pub mod Writes
pub mod Profiles
pub mod Listings
