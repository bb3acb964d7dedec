-- ===== src/Agent.antt =====
-- The agent's side of src/tunnel: its sessions with targets, and their table.
pub mod Session
