-- ===== src/Session.antt =====
-- include/rmt/session and the sessions of src/tunnel.
pub mod Ids
pub mod Manager
