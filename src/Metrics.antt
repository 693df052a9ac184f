-- ===== src/Metrics.antt =====
-- Host metrics: internal/hostmetrics.
pub mod Ring
pub mod Rotation
pub mod Window
pub mod Memory
