-- ===== src/HumanControl/Executions.antt =====
-- When `decide_human_control` of projects/ai-agent/src/human_control.py allows an execution.
use ai_backend_engineer_hand.Prelude.{
  ℕ, ◌≡◌, ◌↔◌, true, false, none, [], string_eq, nat_eq, option_eq, Option-cases, arith, inl, inr,
  ◌≢◌,
}
use ai_backend_engineer_hand.DurableJobs.Types.{external_certainty_eq}
use ai_backend_engineer_hand.HumanControl.Types.{
  approval_status_eq, gate, late_result, decision_made, decision_recorded, CurrentFacts, Command,
  Snapshot, Fingerprints,
}
use ai_backend_engineer_hand.HumanControl.Equality.{
  action_binding_eq, governance_status_eq, operation_eq,
}
use ai_backend_engineer_hand.HumanControl.Guards.{
  or_else, control_result, refused_first, refused_decision, is_stale,
}
use ai_backend_engineer_hand.HumanControl.Decide.{
  refused_now, refused_execution, refused_approval, execution_allowed_now, decide_gate,
  decide_decision, decide_operation, decide_control_current, decide_asked, decide_human_control,
}
use ai_backend_engineer_hand.HumanControl.Idle.{
  IsIdle, Refuses, decide_decision-IsIdle, decide_interrupt-IsIdle, decide_invalidate-IsIdle,
  decide_late_result-IsIdle, decide_recover-IsIdle, or_else-first, or_else_iff,
  refused_approval-Refuses, refused_decision-Refuses, refused_execution-Refuses,
  refused_first-Refuses, refused_now-Refuses,
}
use ai_backend_engineer_hand.HumanControl.Requirements.{
  IsOpen, IsCleared, IsApproved, MayExecute, refused_first_iff, is_stale_iff, refused_now_iff,
  refused_execution_iff, refused_approval_iff,
}

module _ ⦃prints : Fingerprints⦄ (s : Snapshot) (command : Command) (facts : CurrentFacts)
    (now : ℕ) where
  decide_gate_iff : ((decide_gate s command facts now).execution_allowed ≡ true) ↔ (
      (IsCleared s command facts now)
      × (facts.approval_required ≡ true → (IsApproved s command facts now)))
  unfolding decide_gate execution_allowed_now
  decide_gate_iff =
      let end = execution_allowed_now s command facts now in
      let refusal = refused_approval s command facts now in
      ground (
        arith,
        (or_else_iff s command facts now) (refused_execution s command facts now)
            (or_else refusal end) (refused_execution-Refuses s command facts now),
        (or_else_iff s command facts now) refusal end
            (refused_approval-Refuses s command facts now),
        (refused_execution_iff s command facts now),
        (refused_approval_iff s command facts now),
      )

  -- The operations other than a gate allow nothing; a decision has one when it comes here.
  decide_operation-IsIdle :
      command.operation ≢ gate
      → command.operation ≢ late_result
      → (command.operation ≡ decision_made → command.decision ≢ none)
      → IsIdle s command facts now (decide_operation s command facts now)
  unfolding decide_operation Refuses control_result
  decide_operation-IsIdle not_gate not_late decided =
      let r = (decide_recover-IsIdle s command facts now) in
      let i = (decide_interrupt-IsIdle s command facts now) in
      let v = (decide_invalidate-IsIdle s command facts now) in
      elim (Option-cases command.decision) [
        | inl e ↦ ground (arith, r, i, v)
        | inr (d, e) ↦
            let refusal = refused_now s command facts now in
            let decision = decide_decision s command facts now d in
            ground (
              arith,
              r,
              i,
              v,
              (decide_decision-IsIdle s command facts now) d,
              (or_else_iff s command facts now) refusal decision
                  (refused_now-Refuses s command facts now),
              (or_else-first s command facts now) refusal decision
                  (refused_now-Refuses s command facts now)
                  (λ n. ((decide_decision-IsIdle s command facts now) d).1),
            )
      ]

  decide_operation_iff :
      command.operation ≡ gate
      → ((decide_operation s command facts now).execution_allowed ≡ true) ↔ (
          (IsOpen s command facts now)
          × (IsCleared s command facts now)
          × (facts.approval_required ≡ true → (IsApproved s command facts now)))
  unfolding decide_operation
  decide_operation_iff h = ground (
    arith,
    (or_else_iff s command facts now) (refused_now s command facts now)
        (decide_gate s command facts now) (refused_now-Refuses s command facts now),
    (refused_now_iff s command facts now),
    decide_gate_iff,
  )

  decide_current_iff :
      command.operation ≡ gate
      → ((decide_control_current s command facts now).execution_allowed ≡ true) ↔ (
          (is_stale s command facts now ≡ false)
          × (IsOpen s command facts now)
          × (IsCleared s command facts now)
          × (facts.approval_required ≡ true → (IsApproved s command facts now)))
  unfolding decide_control_current control_result
  decide_current_iff h = ground (arith, decide_operation_iff h)

  decide_current-IsIdle :
      command.operation ≢ gate
      → command.operation ≢ late_result
      → (command.operation ≡ decision_made → command.decision ≢ none)
      → IsIdle s command facts now (decide_control_current s command facts now)
  unfolding decide_control_current control_result
  decide_current-IsIdle not_gate not_late decided =
      ground (arith, decide_operation-IsIdle not_gate not_late decided)

  -- A decision that passes has one.
  refused_decision-none : refused_decision s command facts now ≡ none → command.decision ≢ none
  unfolding refused_decision
  refused_decision-none h e = ground arith

  decide_asked_iff : ((decide_asked s command facts now).execution_allowed ≡ true) ↔ (
      (command.operation ≡ gate)
      × ((is_stale s command facts now ≡ false)
          × ((IsOpen s command facts now)
              × ((IsCleared s command facts now)
                  × (facts.approval_required ≡ true → (IsApproved s command facts now))))))
  unfolding decide_asked
  decide_asked_iff =
      let current = decide_control_current s command facts now in
      ground (
        arith,
        (decide_late_result-IsIdle s command facts now),
        (or_else_iff s command facts now) (refused_decision s command facts now) current
            (refused_decision-Refuses s command facts now),
        refused_decision-none,
        decide_current_iff,
        decide_current-IsIdle,
      )

  -- An execution is allowed exactly for a gate command with an identity, of an actor who may
  -- control, made for the job's state, version and fence; for a complete action that is the job's
  -- current one; for a live job without interrupt whose approval is not closed, bound to this
  -- action and, where approval is required, in time; under the available policy of the action that
  -- is not quarantined; with the requester, who may act, as the executor, every governance,
  -- business, admission and budget guard passed, nothing dispatched or possible outside, and a held
  -- reservation; and, where approval is required, as it must be for a high risk, with an approval
  -- and a first decision that approves this action and request, by the current approver, who may
  -- approve, has an eligible role and, if separation is required, is not the requester.
  pub execution_allowed_iff :
      ((decide_human_control s command facts now).execution_allowed ≡ true)
      ↔ (MayExecute s command facts now)
  unfolding decide_human_control
  execution_allowed_iff = ground (
    arith,
    (or_else_iff s command facts now) (refused_first s command facts now)
        (decide_asked s command facts now) (refused_first-Refuses s command facts now),
    decide_asked_iff,
    refused_first_iff s command facts now,
    is_stale_iff s command facts now,
  )

  decide_gate-first :
      (decide_gate s command facts now).status ≡ decision_recorded → s.decisions ≡ []
  unfolding decide_gate execution_allowed_now control_result
  decide_gate-first =
      let end = execution_allowed_now s command facts now in
      (or_else-first s command facts now) (refused_execution s command facts now) _
        (refused_execution-Refuses s command facts now)
        (λ m.
          (or_else-first s command facts now) (refused_approval s command facts now) end
            (refused_approval-Refuses s command facts now) (λ n h. ground arith))

  decide_current-first :
      command.operation ≡ gate
      → (decide_control_current s command facts now).status ≡ decision_recorded
      → s.decisions ≡ []
  unfolding decide_control_current decide_operation control_result
  decide_current-first g h =
      let refusal = refused_now s command facts now in
      let kept =
        (or_else-first s command facts now) refusal (decide_gate s command facts now)
          (refused_now-Refuses s command facts now) (λ n. decide_gate-first) in
      ground (arith, kept)

  decide_asked-first :
      (decide_asked s command facts now).status ≡ decision_recorded → s.decisions ≡ []
  unfolding decide_asked
  decide_asked-first h =
      let current = decide_control_current s command facts now in
      ground (
        arith,
        (decide_late_result-IsIdle s command facts now),
        (or_else-first s command facts now) (refused_decision s command facts now) current
            (refused_decision-Refuses s command facts now),
        (or_else_iff s command facts now) (refused_decision s command facts now) current
            (refused_decision-Refuses s command facts now),
        refused_decision-none,
        decide_current-first,
        decide_current-IsIdle,
      )

  -- A decision is recorded only if there is none.
  pub records_first :
      (decide_human_control s command facts now).status ≡ decision_recorded → s.decisions ≡ []
  unfolding decide_human_control
  records_first =
      (or_else-first s command facts now) (refused_first s command facts now)
        (decide_asked s command facts now) (refused_first-Refuses s command facts now)
        (λ n. decide_asked-first)
