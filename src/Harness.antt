-- ===== src/Harness.antt =====
-- The agent harness (src/harness): messages, plans, permissions, the tool registry, the context and
-- the agent loop.
pub mod Messages
pub mod Plans
pub mod Permissions
pub mod Registry
pub mod Context
pub mod Agent
pub mod Stream
pub mod Retry
pub mod Subagents
