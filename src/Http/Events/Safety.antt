-- ===== src/Http/Events/Safety.antt =====
-- The bus never panics and never blocks under its mutex.
pub mod Channels
pub mod Invariant
pub mod Steps
pub mod Subscribing
pub mod History
