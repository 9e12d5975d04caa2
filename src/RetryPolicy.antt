-- ===== src/RetryPolicy.antt =====
-- The bounded retry policy of remote attempts and the store of their dispatches
-- (projects/ai-agent/src/mcp_retry_policy.py).
pub mod Policy
pub mod Store
pub mod Decisions
pub mod Claims
pub mod Histories
pub mod Cycle
mod Examples
