-- ===== src/Coordination.antt =====
-- The handoff of work to other agents (projects/ai-agent/src/multi_agent_coordination.py): acceptance
-- under a budget, claims with a lease and a fence, dispatch, cancellation, verified results and their
-- aggregation. Times and counts are natural numbers: a negative count is refused as 0 is.
pub mod Types
pub mod Store
pub mod Ownership
pub mod Outcomes
pub mod Evolution
pub mod Changes
pub mod Allocations
pub mod Histories
pub mod Guarantees
pub mod TakeOvers
pub mod Acceptance
pub mod Aggregation
pub mod Flow
mod Examples
