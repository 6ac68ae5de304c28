-- ===== src/Booking/Invariant.antt =====
-- What holds of the tables after every history of calls.
mod WellFormed
mod Attempts
mod Writes
mod Statements
mod Lifecycle
mod Payment
pub mod Histories
pub use WellFormed.*
pub use Attempts.*
pub use Writes.*
pub use Statements.*
pub use Lifecycle.*
pub use Payment.*
