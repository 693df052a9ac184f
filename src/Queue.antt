-- ===== src/Queue.antt =====
-- The durable operations queue: internal/repository/operations.go and operations_deploy.go.
pub mod Rows
pub mod Deploys
pub mod Enqueue
pub mod Claim
pub mod Lease
pub mod Cancel
pub mod Recovery
pub mod Steps
pub mod Lifecycle
pub mod Changes
pub mod Invariants
pub mod Removal
pub mod Reopened
pub mod Selection
pub mod Progress
pub mod Recovered
pub mod Deployments
pub mod Mirror
pub mod Leases
pub mod Enqueued
