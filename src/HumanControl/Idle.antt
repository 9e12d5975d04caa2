-- ===== src/HumanControl/Idle.antt =====
-- The candidates of `decide_human_control` (projects/ai-agent/src/human_control.py) that allow no
-- execution.
use ai_backend_engineer_hand.Prelude.{
  ℕ, String, ◌≡◌, refl, ◌↔◌, Bool, true, false, Option, none, some, List, [], ◌∷◌, string_eq,
  nat_eq, option_eq, if◌then◌else◌, Option-cases, arith, inl, inr, ◌≢◌, if◌then◌else◌, ℤ,
}
use ai_backend_engineer_hand.AgentStateMachine.Types.{AgentState}
use ai_backend_engineer_hand.DurableJobs.Types.{external_certainty_eq}
use ai_backend_engineer_hand.DurableJobs.Records.{
  DurableRecoveryCandidate, RecoveryOperation, ReservationRecord,
}
use ai_backend_engineer_hand.HumanControl.Types.{
  ApprovalStatus, approval_status_eq, decision_recorded, ApprovalDecision, CurrentFacts, Command,
  Snapshot, ControlStatus, HumanControlCandidate, Fingerprints,
}
use ai_backend_engineer_hand.HumanControl.Equality.{
  action_binding_eq, governance_status_eq, operation_eq,
}
use ai_backend_engineer_hand.HumanControl.Guards.{
  or_else, control_result, escalate_control, refused_first, decide_late_result, refused_decision,
  refused_again,
}
use ai_backend_engineer_hand.HumanControl.Recover.{
  recovered_control, decide_recovery, decide_settlement, decide_recover, settlement_of,
  last_recovery, reservations_of,
}
use ai_backend_engineer_hand.HumanControl.Decide.{
  decide_interrupt, decide_invalidate, refused_now, refused_execution, refused_approval,
  decide_decision,
}

module _ ⦃prints : Fingerprints⦄ (s : Snapshot) (command : Command) (facts : CurrentFacts)
    (now : ℕ) where
  -- A candidate that allows no execution, and records a decision only if there is none.
  abbrev pub IsIdle : HumanControlCandidate → Type 0
  IsIdle c = (c.execution_allowed ≡ false) × (c.status ≡ decision_recorded → s.decisions ≡ [])

  pub control_result-IsIdle :
      (status : ControlStatus)
      → status ≢ decision_recorded
      → IsIdle (control_result s command facts now status)
  unfolding control_result
  control_result-IsIdle status n = (refl, λ h. absurd (n h))

  pub escalate_control-IsIdle :
      (reason : String) (state : AgentState) (status : ApprovalStatus)
      (recovery : Option DurableRecoveryCandidate) (evidence : List String)
      → IsIdle (escalate_control s command facts now reason state status recovery evidence)
  unfolding escalate_control control_result
  escalate_control-IsIdle reason state status recovery evidence = ground arith

  pub recovered_control-IsIdle :
      (c : DurableRecoveryCandidate) → IsIdle (recovered_control s command facts now c)
  unfolding recovered_control control_result
  recovered_control-IsIdle c = ground (
    arith,
    escalate_control-IsIdle "BOUNDED_RECOVERY_EXHAUSTED" c.next_state s.approval (some c)
        ("original_identity_preserved" ∷ []),
  )

  pub if-IsIdle :
      (b : Bool) (x y : HumanControlCandidate) → IsIdle x → IsIdle y → IsIdle (if b then x else y)
  if-IsIdle b x y h k = ground arith

  pub decide_recovery-IsIdle :
      (o : RecoveryOperation) → IsIdle (decide_recovery s command facts now o)
  unfolding decide_recovery
  decide_recovery-IsIdle o =
      if-IsIdle _ _ _ (control_result-IsIdle _ (λ h. ground arith)) (recovered_control-IsIdle _)

  pub decide_settlement-IsIdle :
      (o : RecoveryOperation) (usage : ℤ) (rs : List ReservationRecord)
      → IsIdle (decide_settlement s command facts now o usage rs)
  unfolding decide_settlement control_result escalate_control
  decide_settlement-IsIdle o usage [] = (refl, λ h. ground arith)
  decide_settlement-IsIdle o usage (r ∷ q ∷ rs) = (refl, λ h. ground arith)
  decide_settlement-IsIdle o usage (r ∷ []) =
      ground (arith, decide_recovery-IsIdle (settlement_of s command facts now o))

  pub decide_recover-IsIdle : IsIdle (decide_recover s command facts now)
  unfolding decide_recover control_result
  decide_recover-IsIdle =
      (let o = last_recovery s.action.attempt_id facts.recovery s.job.recovery_operations in
        let rs = reservations_of s.action.attempt_id s.job.reservations in
        elim (Option-cases facts.verified_usage) [
          | inl e ↦ ground (arith, decide_recovery-IsIdle o)
          | inr (usage, e) ↦ ground (arith, decide_settlement-IsIdle o usage rs)
        ])

  pub decide_late_result-IsIdle : IsIdle (decide_late_result s command facts now)
  unfolding decide_late_result control_result
  decide_late_result-IsIdle = ground arith

  pub decide_interrupt-IsIdle : IsIdle (decide_interrupt s command facts now)
  unfolding decide_interrupt control_result
  decide_interrupt-IsIdle = ground arith

  pub decide_invalidate-IsIdle : IsIdle (decide_invalidate s command facts now)
  unfolding decide_invalidate control_result
  decide_invalidate-IsIdle = ground arith

  pub decide_decision-IsIdle :
      (d : ApprovalDecision) → IsIdle (decide_decision s command facts now d)
  unfolding decide_decision control_result escalate_control
  decide_decision-IsIdle d = ground arith

  -- A refusal allows nothing.
  unfoldable pub Refuses : Option HumanControlCandidate → Type 0
  Refuses answer = (c : HumanControlCandidate) → answer ≡ some c → IsIdle c

  pub refused_first-Refuses : Refuses (refused_first s command facts now)
  unfolding Refuses refused_first control_result
  refused_first-Refuses c h = ground arith

  pub refused_now-Refuses : Refuses (refused_now s command facts now)
  unfolding Refuses refused_now control_result escalate_control
  refused_now-Refuses c h = ground arith

  pub refused_execution-Refuses : Refuses (refused_execution s command facts now)
  unfolding Refuses refused_execution control_result
  refused_execution-Refuses c h = ground arith

  pub refused_approval-Refuses : Refuses (refused_approval s command facts now)
  unfolding Refuses refused_approval control_result escalate_control
  refused_approval-Refuses c h = ground arith

  pub refused_again-Refuses : (d : ApprovalDecision) → Refuses (refused_again s command facts now d)
  unfolding Refuses refused_again control_result escalate_control
  refused_again-Refuses d c h = ground arith

  pub refused_decision-Refuses : Refuses (refused_decision s command facts now)
  unfolding Refuses refused_decision control_result
  refused_decision-Refuses c h = elim (Option-cases command.decision) [
    | inl e ↦ ground arith
    | inr (d, e) ↦ ground (arith, refused_again-Refuses d c)
  ]

  -- What follows a refusal counts only if there is none.
  pub or_else_iff :
      (answer : Option HumanControlCandidate) (rest : HumanControlCandidate)
      → Refuses answer
      → ((or_else answer rest).execution_allowed ≡ true)
        ↔ ((answer ≡ none) × (rest.execution_allowed ≡ true))
  unfolding Refuses
  or_else_iff none rest h = ground arith
  or_else_iff (some c) rest h = ground (arith, h c refl)

  pub or_else-first :
      (answer : Option HumanControlCandidate) (rest : HumanControlCandidate)
      → Refuses answer
      → (answer ≡ none → rest.status ≡ decision_recorded → s.decisions ≡ [])
      → (or_else answer rest).status ≡ decision_recorded
      → s.decisions ≡ []
  unfolding Refuses
  or_else-first none rest h k e = k refl e
  or_else-first (some c) rest h k e = (h c refl).1 e
