-- ===== src/Chat.antt =====
-- internal/channels/chat: what guards a chat bridge before a message reaches an agent.
pub mod RateLimiter
pub mod Allowlist
