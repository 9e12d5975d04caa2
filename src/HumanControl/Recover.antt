-- ===== src/HumanControl/Recover.antt =====
-- RECOVER of `decide_human_control` of projects/ai-agent/src/human_control.py.
use ai_backend_engineer_hand.Prelude.{
  ℕ, String, ◌+◌, false, not, ◌||◌, ◌&&◌, none, some, List, [], ◌∷◌, ◌==◌, string_eq, nat_eq,
  option_eq, ltb, leb_ℤ, ℤ, pos, pos_part, prefixed, if◌then◌else◌,
}
use ai_backend_engineer_hand.AgentStateMachine.Types.{agent_state_eq}
use ai_backend_engineer_hand.DurableJobs.Types.{
  definitely_not_dispatched, verified_terminal, external_certainty_eq, reconcile, settle, escalate,
  held, settled, keep_held, settle_verified,
}
use ai_backend_engineer_hand.DurableJobs.Records.{
  ReservationRecord, RecoveryOperation, DurableRecoveryCandidate,
}
use ai_backend_engineer_hand.DurableJobs.Decide.{decide_durable_recovery}
use ai_backend_engineer_hand.HumanControl.Types.{
  reconciliation_query, HumanControlCandidate, approval_status_eq, CurrentFacts, Command, Snapshot,
  recovery_not_authorized, usage_evidence_required, invalid_verified_usage,
  settlement_already_recorded, no_external_operation_to_reconcile, reconcile_original, settle_usage,
  recovery_no_new_business_execution, Fingerprints,
}
use ai_backend_engineer_hand.HumanControl.Equality.{
  action_binding_eq, governance_status_eq, reservation_status_eq, operation_eq,
}
use ai_backend_engineer_hand.HumanControl.Guards.{
  permitted, is_present, authorized, control_result, with_evidence, escalate_control,
}

-- The last recovery of an attempt, or the one given.
unfoldable pub last_recovery :
    String → RecoveryOperation → List RecoveryOperation → RecoveryOperation
last_recovery attempt default [] = default
last_recovery attempt default (o ∷ os) =
    last_recovery attempt (if o.source_attempt_id == attempt then o else default) os

-- The reservations of an attempt.
unfoldable pub reservations_of : String → List ReservationRecord → List ReservationRecord
reservations_of attempt [] = []
reservations_of attempt (r ∷ rs) =
    let rest = reservations_of attempt rs in if r.attempt_id == attempt then r ∷ rest else rest

module _ ⦃prints : Fingerprints⦄ (s : Snapshot) (command : Command) (facts : CurrentFacts)
    (now : ℕ) where
  -- What a recovery of the job makes of it.
  unfoldable pub recovered_control : DurableRecoveryCandidate → HumanControlCandidate
  recovered_control c = elim c.decision [
    | escalate ↦
        escalate_control s command facts now "BOUNDED_RECOVERY_EXHAUSTED" c.next_state s.approval
          (some c) ("original_identity_preserved" ∷ [])
    | reconcile ↦
        record (with_evidence s command facts now reconcile_original
          ("original_identity_preserved" ∷ [])) {
            next_state = c.next_state;
            reservation_action = keep_held;
            outbox_action = reconciliation_query;
            follow_up = "RECONCILE_ORIGINAL_OPERATION";
            recovery_candidate = some c;
          }
    | settle ↦ record (with_evidence s command facts now settle_usage ("verified_usage" ∷ [])) {
      reservation_action = settle_verified;
      recovery_candidate = some c;
    }
    | _ ↦ control_result s command facts now recovery_no_new_business_execution
  ]

  -- The recovery is decided as for the durable job.
  unfoldable pub decide_recovery : RecoveryOperation → HumanControlCandidate
  decide_recovery operation =
      if facts.certainty == definitely_not_dispatched
      then control_result s command facts now no_external_operation_to_reconcile
      else recovered_control (
          decide_durable_recovery s.job operation (record {
            recovery_id = command.command_id;
            tenant_id = s.action.tenant_id;
            job_id = s.action.job_id;
            step_id = s.action.step_id;
            attempt_id = s.action.attempt_id;
            checkpoint_id = s.job.current_checkpoint.checkpoint_id;
            expected_state = s.job.state;
            expected_state_version = s.job.state_version;
            expected_fence_token = s.job.fence_token;
            now_epoch_ms = now;
            external_certainty = facts.certainty;
            current_authorization = authorized s command facts now;
            original_binding_currently_allowed = not facts.policy_quarantined;
            internal_repair_required = false;
            verified_effect_unwanted = false;
            verified_usage_units = facts.verified_usage;
          }))

  -- A settlement has one step of its own.
  unfoldable pub settlement_of : RecoveryOperation → RecoveryOperation
  settlement_of operation = record {
    recovery_id = prefixed "settlement:" command.command_id;
    source_attempt_id = s.action.attempt_id;
    recovery_generation = operation.recovery_generation;
    attempts_used = 0;
    attempt_limit = 1;
    deadline_epoch_ms = now + 1;
    last_evidence_fingerprint = facts.outcome_evidence_id;
  }

  -- The verified usage against the one reservation of the attempt.
  unfoldable pub decide_settlement :
      RecoveryOperation → ℤ → List ReservationRecord → HumanControlCandidate
  decide_settlement operation usage (r ∷ []) =
      if not (leb_ℤ (pos 0) usage && leb_ℤ usage (pos r.reserved_units))
      then control_result s command facts now invalid_verified_usage
      else if r.status == settled
      then if r.settled_units == some (pos_part usage)
        then control_result s command facts now settlement_already_recorded
        else escalate_control s command facts now "SETTLEMENT_CONFLICT" s.job.state s.approval none
            ("settled_usage_not_rewritten" ∷ [])
      else if not (r.status == held)
      then escalate_control s command facts now "SETTLEMENT_RESERVATION_CONFLICT" s.job.state
          s.approval none []
      else decide_recovery (settlement_of operation)
  decide_settlement operation usage _ = control_result s command facts now invalid_verified_usage

  -- RECOVER.
  unfoldable pub decide_recover : HumanControlCandidate
  decide_recover =
      let operation = last_recovery s.action.attempt_id facts.recovery s.job.recovery_operations in
      if not (permitted command.actor s.action.tenant_id "operate")
        || not (operation.source_attempt_id == s.action.attempt_id)
        || ltb operation.attempt_limit 1
      then control_result s command facts now recovery_not_authorized
      else elim facts.verified_usage [
        | none ↦ decide_recovery operation
        | some usage ↦
            if not (facts.certainty == verified_terminal)
              || not (is_present facts.outcome_evidence_id)
            then control_result s command facts now usage_evidence_required
            else decide_settlement operation usage
                (reservations_of s.action.attempt_id s.job.reservations)
      ]
