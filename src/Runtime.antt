-- ===== src/Runtime.antt =====
-- internal/runtime: the runs in progress.
pub mod RunTracker
