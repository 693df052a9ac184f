-- ===== src/Examples.antt =====
-- Concrete inputs for the theorems of the other modules.
pub mod Backups
pub mod Fixtures
pub mod Parts
pub mod Gateway
pub mod GatewayQueue
pub mod Runs
pub mod Sessions
pub mod Tables
