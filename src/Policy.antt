-- ===== src/Policy.antt =====
-- internal/policy: what an agent may do, and which paths it may touch.
pub mod Capability
pub mod PathGuard
