-- ===== src/Agent.antt =====
-- internal/agent: the run loop of an agent and the delegation of its work.
pub mod Complexity
pub mod Outcomes
pub mod Calls
pub mod Order
pub mod Delegation
