-- ===== src/AgentLoop.antt =====
-- The control boundary of the agent loop: projects/ai-agent/src/agent_loop.py.
pub mod Types
pub mod Decide
pub mod Store
pub mod Decisions
pub mod Delivery
pub mod Overlaps
mod Examples
