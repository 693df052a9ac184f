-- ===== src/Logs.antt =====
-- The tail of a log file: TailFile and tailLastLines of internal/logs/files.go.
pub mod Tail
pub mod Lines
