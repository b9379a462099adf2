-- ===== src/Logger.antt =====
-- pkg/logger: the log lines.
pub mod Kdl
