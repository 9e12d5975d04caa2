-- ===== src/HumanControl/Equality.antt =====
-- Equality of the dataclasses that projects/ai-agent/src/human_control.py compares with `==`.
use ai_backend_engineer_hand.Prelude.{Eq, holds, String_discrete, ℕ_discrete, ℤ}
use ai_backend_engineer_hand.AgentStateMachine.Types.{
  AgentState-discrete, InvocationGovernanceStatus,
}
use ai_backend_engineer_hand.DurableJobs.Types.{DurableRecoveryDecision, ReservationStatus}
use ai_backend_engineer_hand.DurableJobs.Records.{DurableRecoveryCandidate}
use ai_backend_engineer_hand.HumanControl.Types.{
  ApprovalStatus-discrete, Operation, Principal, ActionBinding, ApprovalDecision, Command,
  Escalation, ControlStatus, HumanControlCandidate,
}

unfoldable pub Operation-discrete : Discrete Operation
Operation-discrete = hlevel

instance abbrev pub operation_eq : Eq Operation
operation_eq = record { beq = λ a b. holds (Operation-discrete a b) }

unfoldable pub GovernanceStatus-discrete : Discrete InvocationGovernanceStatus
GovernanceStatus-discrete = hlevel

instance abbrev pub governance_status_eq : Eq InvocationGovernanceStatus
governance_status_eq = record { beq = λ a b. holds (GovernanceStatus-discrete a b) }

unfoldable pub ReservationStatus-discrete : Discrete ReservationStatus
ReservationStatus-discrete = hlevel

instance abbrev pub reservation_status_eq : Eq ReservationStatus
reservation_status_eq = record { beq = λ a b. holds (ReservationStatus-discrete a b) }

unfoldable pub RecoveryDecision-discrete : Discrete DurableRecoveryDecision
RecoveryDecision-discrete = hlevel

unfoldable pub Principal-discrete : Discrete Principal
Principal-discrete = hlevel (String_discrete)

instance abbrev pub principal_eq : Eq Principal
principal_eq = record { beq = λ a b. holds (Principal-discrete a b) }

unfoldable pub ActionBinding-discrete : Discrete ActionBinding
ActionBinding-discrete = hlevel (String_discrete)

instance abbrev pub action_binding_eq : Eq ActionBinding
action_binding_eq = record { beq = λ a b. holds (ActionBinding-discrete a b) }

unfoldable pub ApprovalDecision-discrete : Discrete ApprovalDecision
ApprovalDecision-discrete = hlevel (String_discrete, ℕ_discrete, ApprovalStatus-discrete)

instance abbrev pub approval_decision_eq : Eq ApprovalDecision
approval_decision_eq = record { beq = λ a b. holds (ApprovalDecision-discrete a b) }

unfoldable pub Command-discrete : Discrete Command
Command-discrete = hlevel (
  String_discrete, ℕ_discrete, ApprovalStatus-discrete, Operation-discrete, Principal-discrete,
  AgentState-discrete, ApprovalDecision-discrete,
)

instance abbrev pub command_eq : Eq Command
command_eq = record { beq = λ a b. holds (Command-discrete a b) }

unfoldable pub Escalation-discrete : Discrete Escalation
Escalation-discrete = hlevel (String_discrete, ℕ_discrete)

unfoldable pub ControlStatus-discrete : Discrete ControlStatus
ControlStatus-discrete = hlevel (String_discrete, ApprovalStatus-discrete)

unfoldable pub ℤ-discrete : Discrete ℤ
ℤ-discrete = hlevel (ℕ_discrete)

unfoldable pub RecoveryCandidate-discrete : Discrete DurableRecoveryCandidate
RecoveryCandidate-discrete =
    hlevel (String_discrete, ℕ_discrete, AgentState-discrete, RecoveryDecision-discrete, ℤ-discrete)

unfoldable pub Candidate-discrete : Discrete HumanControlCandidate
Candidate-discrete = hlevel (
  String_discrete, Command-discrete, ControlStatus-discrete, AgentState-discrete,
  ApprovalStatus-discrete, Escalation-discrete, RecoveryCandidate-discrete,
)

instance abbrev pub control_candidate_eq : Eq HumanControlCandidate
control_candidate_eq = record { beq = λ a b. holds (Candidate-discrete a b) }
