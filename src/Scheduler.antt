-- ===== src/Scheduler.antt =====
-- internal/scheduler/scheduler.go.
pub mod Time
pub mod Store
pub mod Executor
pub mod Due
pub mod Updates
pub mod Persist
pub mod Keyed
pub mod Handout
mod Samples
