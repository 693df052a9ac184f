-- ===== src/Queue/Changes.antt =====
-- Every transaction of the queue makes one change that the specification allows.
pub mod Update
pub mod Tables
pub mod Outcomes
pub mod Inserts
pub mod Claims
pub mod Reports
pub mod Commands
