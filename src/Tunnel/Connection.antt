-- ===== src/Tunnel/Connection.antt =====
-- src/tunnel/connection.cpp: one connection, its two queues of frames to send, and its end.
pub mod State
pub mod Writes
pub mod Steps
pub mod Kept
pub mod Callbacks
pub mod Balance
pub mod Told
pub mod Flow
pub mod Sending
pub mod Ended
pub mod Queues
pub mod Order
pub mod InOrder
