-- ===== src/HumanControl.antt =====
-- The control of a job by people (projects/ai-agent/src/human_control.py): candidates that are decided
-- from a snapshot, the store that applies them, and the one dispatch of an approved event.
pub mod Types
pub mod Equality
pub mod Guards
pub mod Recover
pub mod Decide
pub mod Store
pub mod Apply
pub mod Dispatch
pub mod Idle
pub mod Requirements
pub mod Executions
pub mod Histories
pub mod Guarantees
mod Examples
