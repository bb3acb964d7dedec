-- ===== src/Tunnel.antt =====
-- The connections of src/tunnel: the registry of devices, and the connection itself.
pub mod Devices
pub mod Connection
