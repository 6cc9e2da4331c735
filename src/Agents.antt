-- ===== src/Agents.antt =====
-- The worker agents of the daemon: daemon/src/agents/lifecycle.ts.
pub mod Agent
pub mod Job
pub mod Lifecycle
pub mod Control
pub mod Recovery
mod Samples
