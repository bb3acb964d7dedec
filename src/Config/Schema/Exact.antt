-- ===== src/Config/Schema/Exact.antt =====
-- What each validator of config_schema.cpp accepts, exactly.
pub mod Shared
pub mod RemoteTool
pub mod Names
pub mod Devices
pub mod Mapping
pub mod Mappings
pub mod Policy
pub mod Agent
pub mod Files
