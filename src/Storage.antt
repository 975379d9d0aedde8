-- ===== src/Storage.antt =====
-- pkg/storage: the telemetry writer.
pub mod Writer
pub mod Examples
