-- ===== src/Agent.antt =====
-- internal/agent: what the agents of the database share.
pub mod Permission
pub mod Tasks
