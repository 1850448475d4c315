-- ===== src/Patch.antt =====
-- The patch engine (src/uv_agent_runtime/patch.py).
pub mod Error
pub mod Parse
pub mod Hunks
pub mod Disk
pub mod Apply
pub mod Envelope
mod Examples
