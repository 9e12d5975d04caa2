-- ===== src/AgentStateMachine.antt =====
-- State, termination and budget control of the agent:
-- projects/ai-agent/src/agent_state_machine.py.
pub mod Types
pub mod Budget
pub mod Progress
pub mod Decide
pub mod Store
pub mod Candidates
pub mod Transitions
pub mod Traces
pub mod Loops
pub mod EndToEnd
mod Examples
