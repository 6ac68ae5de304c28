-- ===== src/Booking.antt =====
-- The booking module (internal/booking, with its entities from internal/domain): the reservation of
-- slots and the payment of bookings, and what its operations keep.
pub mod Types
pub mod Requests
pub mod World
pub mod Repository
pub mod Triple
pub mod Chapa
pub mod Service
pub mod History
pub mod Reads
pub mod Reliable
pub mod Listing
pub mod Closed
pub mod Decisions
pub mod Seats
pub mod Settlement
pub mod Proof
pub mod Handlers
pub mod Callbacks
mod Examples
pub mod Invariant
