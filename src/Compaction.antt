-- ===== src/Compaction.antt =====
-- The compaction of a conversation (src/uv_agent/agent/compaction.py).
pub mod Item
pub mod Judge
pub mod Retain
pub mod Handoff
mod Examples
