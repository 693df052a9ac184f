-- ===== src/Deployments.antt =====
-- Deployments outside the queue: what the handlers and the API write to their rows.
pub mod Store
pub mod Cancelled
