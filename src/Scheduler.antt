-- ===== src/Scheduler.antt =====
-- src/uv_agent/builtin/scheduler/service.py: schedules, the runs of their actions, and when they are due.
mod Error
pub mod Cron
mod Tables
mod Params
pub mod Service
pub mod Due
pub mod Runs
pub mod Sound
mod Examples
