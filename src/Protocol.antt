-- ===== src/Protocol.antt =====
-- The wire protocol: include/rmt/protocol and src/protocol.
pub mod ErrorCode
pub mod Msg
pub mod Frame
pub mod Messages
pub mod Delivery
