-- ===== src/AgentStateMachine/Types.antt =====
-- The enums of projects/ai-agent/src/agent_state_machine.py, and Day80's verdict on an invocation
-- (projects/ai-agent/src/tool_governance.py).
use ai_backend_engineer_hand.Prelude.{String, Bool, true, false, Eq, holds}

pub data AgentState : Type 0 where
  ready running waiting pending_reconciliation completed terminated failed cancelled : AgentState

unfoldable pub AgentState-discrete : Discrete AgentState
AgentState-discrete = hlevel

instance abbrev pub agent_state_eq : Eq AgentState
agent_state_eq = record { beq = λ a b. holds (AgentState-discrete a b) }

-- `state in TERMINAL_STATES`.
abbrev pub is_terminal : AgentState → Bool
is_terminal completed = true
is_terminal terminated = true
is_terminal failed = true
is_terminal cancelled = true
is_terminal _ = false

-- The `.value` of a member.
unfoldable pub state_value : AgentState → String
state_value ready = "READY"
state_value running = "RUNNING"
state_value waiting = "WAITING"
state_value pending_reconciliation = "PENDING_RECONCILIATION"
state_value completed = "COMPLETED"
state_value terminated = "TERMINATED"
state_value failed = "FAILED"
state_value cancelled = "CANCELLED"

pub data TransitionAction : Type 0 where
  continue wait reconcile complete terminate fail noop : TransitionAction

unfoldable pub TransitionAction-discrete : Discrete TransitionAction
TransitionAction-discrete = hlevel

instance abbrev pub transition_action_eq : Eq TransitionAction
transition_action_eq = record { beq = λ a b. holds (TransitionAction-discrete a b) }

unfoldable pub action_value : TransitionAction → String
action_value continue = "CONTINUE"
action_value wait = "WAIT"
action_value reconcile = "RECONCILE"
action_value complete = "COMPLETE"
action_value terminate = "TERMINATE"
action_value fail = "FAIL"
action_value noop = "NOOP"

pub data TerminationReason : Type 0 where
  goal_satisfied no_progress_loop_detected step_budget_exhausted token_budget_exhausted
        cost_budget_exhausted authorization_revoked non_recoverable_failure :
      TerminationReason

pub data RecoveryAction : Type 0 where
  no_recovery reconcile_original_identity wait_for_prerequisite wait_for_replan
        replan_with_current_capabilities :
      RecoveryAction

pub data TransitionApplyStatus : Type 0 where
  applied duplicate_replay noop_terminal noop_stale reservation_conflict not_applicable :
      TransitionApplyStatus

pub data InvocationGovernanceStatus : Type 0 where
  allowed_to_day74_admission original_snapshot_mismatch original_tool_not_visible
        current_permission_revoked current_registry_blocked schema_binding_mismatch :
      InvocationGovernanceStatus

unfoldable pub governance_value : InvocationGovernanceStatus → String
governance_value allowed_to_day74_admission = "ALLOWED_TO_DAY74_ADMISSION"
governance_value original_snapshot_mismatch = "ORIGINAL_SNAPSHOT_MISMATCH"
governance_value original_tool_not_visible = "ORIGINAL_TOOL_NOT_VISIBLE"
governance_value current_permission_revoked = "CURRENT_PERMISSION_REVOKED"
governance_value current_registry_blocked = "CURRENT_REGISTRY_BLOCKED"
governance_value schema_binding_mismatch = "SCHEMA_BINDING_MISMATCH"
