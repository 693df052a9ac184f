-- ===== src/Workers.antt =====
-- The worker runtime over the queue: internal/workers.
pub mod Admission
pub mod Registry
pub mod Runtime
pub mod Outcomes
pub mod HoldLease
pub mod Heartbeat
