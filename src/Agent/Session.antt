-- ===== src/Agent/Session.antt =====
-- src/tunnel/agent_session.cpp: a session of the agent with a target.
pub mod State
pub mod Target
pub mod Frames
pub mod Effects
pub mod Steps
pub mod Operations
pub mod Handlers
pub mod Ends
pub mod Data
pub mod Events
pub mod Histories
pub mod Endings
