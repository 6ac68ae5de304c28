-- ===== src/Testing.antt =====
-- The testing core: how a stream is cut into maneuvers.
pub mod Segmenter
pub mod Segments
pub mod QrEvents
pub mod Alternation
pub mod Scored
pub mod Store
pub mod Statements
pub mod Handlers
pub mod History
pub mod Keeps
pub mod Upkeep
pub mod Records
pub mod Checkin
pub mod Taking
pub mod Starting
pub mod Ending
mod Examples
mod Scenarios
pub mod Scoring
pub mod Verdict
mod Grades
