-- ===== src/PromptStack.antt =====
-- internal/promptstack: the layers of an agent's prompt and the differences of their versions.
pub mod Layers
pub mod Diff
mod Samples
