-- ===== src/Session/Manager.antt =====
-- src/tunnel/session_manager.cpp and include/rmt/tunnel/session_manager.h.
pub mod State
pub mod Local
pub mod Agent
pub mod Account
mod Steps
pub mod Routine
pub mod Once
