-- ===== src/Tunnel/Devices.antt =====
-- src/tunnel/device_manager.cpp: the registry of the connections of devices.
pub mod State
pub mod Dispatch
pub mod Timeouts
pub mod Counts
pub mod Expiry
pub mod Unique
