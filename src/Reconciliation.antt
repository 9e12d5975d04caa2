-- ===== src/Reconciliation.antt =====
-- Reconciliation of remote operations whose outcome is unknown: observation, commit and schedule
-- (projects/ai-agent/src/mcp_reconciliation.py).
pub mod Types
pub mod Observe
pub mod Store
pub mod Schedule
pub mod Observations
pub mod Commits
pub mod Schedules
mod Examples
