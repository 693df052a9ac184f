-- ===== src/Backups.antt =====
-- Database backups: internal/repository/database_backups.go and
-- internal/services/database_backup_schedule.go.
pub mod Absent
pub mod Cleared
pub mod Deletion
pub mod Destinations
pub mod Effects
pub mod Handled
pub mod Loops
pub mod Policies
pub mod Records
pub mod Purged
pub mod Rows
pub mod Scheduled
pub mod Steps
pub mod Transfers
pub mod Window
