-- ===== src/Protocol/Messages.antt =====
-- include/rmt/protocol/messages.h and src/protocol/messages.cpp: the messages that frames carry.
pub mod Text
pub mod Extract
pub mod Connection
pub mod Session
pub mod ReadBack
