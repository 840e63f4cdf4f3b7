-- ===== src/Http.antt =====
-- internal/channels/http: runs, the trackers of what runs, and the event streams of runs.
pub mod Events
pub mod RunCancel
