-- ===== src/Tracking.antt =====
-- The run-time statistics: interval logs of a value, and the utilization of a link.
pub mod LogUpdate
pub mod QueueTracker
pub mod Utilization
mod Tests
