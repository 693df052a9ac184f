-- ===== src/Gateway.antt =====
-- The database gateway's control plane: internal/repository/database_gateways.go.
pub mod Access
pub mod Blocked
pub mod Changes
pub mod Credentials
pub mod Names
pub mod Queue
pub mod Rotation
pub mod Sealed
pub mod Steps
pub mod Taken
