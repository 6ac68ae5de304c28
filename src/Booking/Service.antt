-- ===== src/Booking/Service.antt =====
-- The operations of internal/booking/service.go.
mod Lifecycle
mod Payment
mod Slots
unfoldable pub use Lifecycle.*
unfoldable pub use Payment.*
unfoldable pub use Slots.*
