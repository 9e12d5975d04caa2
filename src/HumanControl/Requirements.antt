-- ===== src/HumanControl/Requirements.antt =====
-- What an execution needs, in the terms of the snapshot, the command and the facts, against the tests of
-- `decide_human_control` (projects/ai-agent/src/human_control.py).
use ai_backend_engineer_hand.Prelude.{
  ℕ, ◌≡◌, refl, ◌↔◌, true, false, ◌&&◌, none, List, [], ◌∷◌, ◌==◌, string_eq, nat_eq, option_eq,
  arith, inl, inr, ◌≢◌, ◌⊎◌, ◌≤◌, ◌<◌, String, is_in, all_given, Bool-cases, some,
}
use ai_backend_engineer_hand.AgentStateMachine.Types as Agent
use ai_backend_engineer_hand.AgentStateMachine.Types.{is_terminal, allowed_to_day74_admission}
use ai_backend_engineer_hand.DurableJobs.Records.{ReservationRecord}
use ai_backend_engineer_hand.DurableJobs.Types.{
  held, definitely_not_dispatched, external_certainty_eq,
}
use ai_backend_engineer_hand.HumanControl.Types.{
  Principal, not_required, pending, approved, approval_status_eq, high, gate, ApprovalDecision,
  CurrentFacts, Command, Snapshot, Fingerprints,
}
use ai_backend_engineer_hand.HumanControl.Equality.{
  reservation_status_eq, action_binding_eq, governance_status_eq, operation_eq,
}
use ai_backend_engineer_hand.HumanControl.Guards.{
  permitted, is_separate, is_complete, authorized, refused_first, is_stale,
}
use ai_backend_engineer_hand.HumanControl.Decide.{
  is_closed, holds_reservation, refused_now, is_current_approval, refused_execution,
  refused_approval,
}

List-cases :
    (ds : List ApprovalDecision)
    → (ds ≡ []) ⊎ ((d : ApprovalDecision) × ((rest : List ApprovalDecision) × (ds ≡ d ∷ rest)))
List-cases [] = inl refl
List-cases (d ∷ rest) = inr (d, (rest, refl))

-- An authenticated actor of the tenant that has the permission.
pub record IsPermitted (p : Principal) (tenant permission : String) : Type 0 where
  pub authenticated : p.authenticated ≡ true
  pub same_tenant : p.tenant_id ≡ tenant
  pub granted : is_in permission p.permissions ≡ true

permitted_iff :
    (p : Principal) (tenant permission : String)
    → (permitted p tenant permission ≡ true) ↔ IsPermitted p tenant permission
unfolding permitted
permitted_iff p tenant permission = ground arith

-- The attempt has a reservation that is held.
pub data Holds (attempt : String) : List ReservationRecord → Type 0 where
  here :
      {r : ReservationRecord} {rs : List ReservationRecord}
      → r.attempt_id ≡ attempt
      → r.status ≡ held
      → Holds attempt (r ∷ rs)
  there :
      {r : ReservationRecord} {rs : List ReservationRecord}
      → Holds attempt rs
      → Holds attempt (r ∷ rs)

holds_reservation-Holds :
    (attempt : String) (rs : List ReservationRecord)
    → holds_reservation attempt rs ≡ true
    → Holds attempt rs
unfolding holds_reservation
holds_reservation-Holds attempt [] h = cc
holds_reservation-Holds attempt (r ∷ rs) h =
    elim (Bool-cases (r.attempt_id == attempt && r.status == held)) [
      | inl e ↦ here (ground arith) (ground arith)
      | inr e ↦ there (holds_reservation-Holds attempt rs (ground arith))
    ]

Holds-holds_reservation :
    (attempt : String) (rs : List ReservationRecord)
    → Holds attempt rs
    → holds_reservation attempt rs ≡ true
unfolding holds_reservation
Holds-holds_reservation attempt [] h = elim h [ ]
Holds-holds_reservation attempt (r ∷ rs) (here a b) = ground arith
Holds-holds_reservation attempt (r ∷ rs) (there h) =
    ground (arith, Holds-holds_reservation attempt rs h)

module _ ⦃prints : Fingerprints⦄ (s : Snapshot) (command : Command) (facts : CurrentFacts)
    (now : ℕ) where
  -- The command, the request and the action are complete, the actor may control, and the action is the
  -- job's current one.
  pub record IsIdentified : Type 0 where
    pub named : command.command_id ≢ ""
    pub requested : s.request.request_id ≢ ""
    pub responds_later : s.request.requested_at ≤ s.request.respond_by
    pub expires_later : s.request.respond_by ≤ s.request.expires_at
    pub complete :
        let a = s.action in
        all_given (
          a.tenant_id ∷ a.job_id ∷ a.step_id ∷ a.attempt_id ∷ a.operation_id ∷ a.action_type
          ∷ a.tool_name ∷ a.tool_version ∷ a.arguments_fingerprint ∷ a.artifact_id
          ∷ a.artifact_version ∷ a.requester_id ∷ a.policy_id ∷ a.policy_version
          ∷ a.execution_binding_fingerprint ∷ [])
        ≡ true
    pub controller : IsPermitted command.actor s.action.tenant_id "control"
    pub same_tenant : s.job.tenant_id ≡ s.action.tenant_id
    pub same_job : s.job.job_id ≡ s.action.job_id
    pub same_step : s.job.current_step_id ≡ s.action.step_id
    pub same_attempt : s.job.current_attempt_id ≡ s.action.attempt_id
    pub same_bindings :
        s.action.execution_binding_fingerprint
        ≡ prints.of_bindings s.job.current_checkpoint.bindings

  -- The command was made for the job as it is.
  pub record IsCurrentCommand : Type 0 where
    pub same_state : command.expected_state ≡ s.job.state
    pub same_version : command.expected_state_version ≡ s.job.state_version
    pub same_fence : command.expected_fence ≡ s.job.fence_token

  -- What stops a decision as well as an execution is absent.
  pub record IsOpen : Type 0 where
    pub live :
        (s.job.state ≢ Agent.completed)
        × (s.job.state ≢ Agent.terminated)
        × (s.job.state ≢ Agent.failed)
        × (s.job.state ≢ Agent.cancelled)
    pub uninterrupted : (s.interrupt_id ≡ none) ⊎ (s.interrupt_id ≡ some "")
    pub unclosed : (s.approval ≡ not_required) ⊎ ((s.approval ≡ pending) ⊎ (s.approval ≡ approved))
    pub bound : s.request.binding ≡ s.action
    pub unexpired : facts.approval_required ≡ true → now < s.request.expires_at
    pub unquarantined : facts.policy_quarantined ≡ false
    pub available : facts.policy_available ≡ true
    pub same_policy : facts.policy_id ≡ s.action.policy_id
    pub same_version : facts.policy_version ≡ s.action.policy_version
    pub high_is_approved : s.action.risk ≡ high → facts.approval_required ≡ true

  -- The guards of the execution itself.
  pub record IsCleared : Type 0 where
    pub entitled : IsPermitted facts.executor s.action.tenant_id s.action.action_type
    pub requester : facts.executor.actor_id ≡ s.action.requester_id
    pub governed : facts.governance ≡ allowed_to_day74_admission
    pub valid : facts.business_valid ≡ true
    pub admitted : facts.admission_allowed ≡ true
    pub affordable : facts.budget_allowed ≡ true
    pub unclaimed : s.dispatch_started ≡ false
    pub unsent : facts.certainty ≡ definitely_not_dispatched
    pub reserved : Holds s.action.attempt_id s.job.reservations

  -- A decision that approves this action and request, by the current approver, who may still approve.
  pub record Approves (d : ApprovalDecision) : Type 0 where
    pub choice : d.choice ≡ approved
    pub same_action : d.binding_fingerprint ≡ prints.of_action s.action
    pub same_request : d.request_id ≡ s.request.request_id
    pub same_actor : d.actor_id ≡ facts.approver.actor_id
    pub approver : IsPermitted facts.approver s.action.tenant_id "approve"
    pub eligible : is_in facts.approver.role s.request.eligible_roles ≡ true
    pub separate :
        s.request.separation_required ≡ true → facts.approver.actor_id ≢ s.action.requester_id

  -- The approval is given, and the first decision approves.
  unfoldable pub IsApproved : Type 0
  IsApproved =
      (s.approval ≡ approved)
      × ((d : ApprovalDecision) × ((rest : List ApprovalDecision) × ((s.decisions ≡ d ∷ rest)
              × Approves d)))

  -- What an execution needs.
  pub record MayExecute : Type 0 where
    pub identified : IsIdentified
    pub asked : command.operation ≡ gate
    pub current : IsCurrentCommand
    pub unblocked : IsOpen
    pub cleared : IsCleared
    pub approval_given : facts.approval_required ≡ true → IsApproved

  pub refused_first_iff : (refused_first s command facts now ≡ none) ↔ IsIdentified
  unfolding refused_first is_complete
  refused_first_iff = ground (arith, permitted_iff command.actor s.action.tenant_id "control")

  pub is_stale_iff : (is_stale s command facts now ≡ false) ↔ IsCurrentCommand
  unfolding is_stale
  is_stale_iff = ground arith

  pub refused_now_iff : (refused_now s command facts now ≡ none) ↔ IsOpen
  unfolding refused_now is_closed
  refused_now_iff = ground arith

  pub refused_execution_iff : (refused_execution s command facts now ≡ none) ↔ IsCleared
  unfolding refused_execution authorized
  refused_execution_iff = ground (
    arith,
    permitted_iff facts.executor s.action.tenant_id s.action.action_type,
    holds_reservation-Holds s.action.attempt_id s.job.reservations,
    Holds-holds_reservation s.action.attempt_id s.job.reservations,
  )

  is_current_approval_iff :
      (d : ApprovalDecision) → (is_current_approval s command facts now d ≡ true) ↔ Approves d
  unfolding is_current_approval is_separate
  is_current_approval_iff d =
      ground (arith, permitted_iff facts.approver s.action.tenant_id "approve")

  pub refused_approval_iff :
      (refused_approval s command facts now ≡ none) ↔ (facts.approval_required ≡ true → IsApproved)
  unfolding refused_approval IsApproved
  refused_approval_iff = elim (List-cases s.decisions) [
    | inl e ↦ ground arith
    | inr (d, (rest, e)) ↦ ground (arith, is_current_approval_iff d)
  ]
