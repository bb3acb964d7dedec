-- ===== src/Config.antt =====
-- include/rmt/config and src/config.
pub mod Json
pub mod Schema
