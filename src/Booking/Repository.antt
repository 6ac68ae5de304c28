-- ===== src/Booking/Repository.antt =====
-- The statements of internal/booking/repository.go on the tables of the world.
mod Rows
mod Queries
unfoldable pub use Rows.*
unfoldable pub use Queries.*
