-- ===== src/Config/Schema.antt =====
-- include/rmt/config/config_schema.h and src/config/config_schema.cpp: the checks of the four
-- configuration files.
pub mod Checks
pub mod Accepts
pub mod Fields
pub mod Exact
pub mod Utf8
pub mod RemoteTool
pub mod Devices
pub mod Mappings
pub mod Agent
