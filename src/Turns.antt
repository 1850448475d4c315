-- ===== src/Turns.antt =====
-- The turn supervisor (src/uv_agent/turn_manager.py).
pub mod Handle
pub mod Thread
mod Line
pub mod Invariant
pub mod Steps
pub mod Pending
pub mod Accounted
pub mod Drain
pub mod Signals
pub mod Streams
pub mod Manager
mod Examples
