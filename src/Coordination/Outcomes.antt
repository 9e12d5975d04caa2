-- ===== src/Coordination/Outcomes.antt =====
-- Unknown outcomes, cancellation, verified results and their aggregation
-- (projects/ai-agent/src/multi_agent_coordination.py).
use ai_backend_engineer_hand.Prelude.{
  ℕ, String, ◌+◌, Bool, true, false, not, ◌||◌, ◌&&◌, none, some, List, [], ◌∷◌, ◌++◌, ◌==◌,
  string_eq, nat_eq, option_eq, Dict, lookup, if◌then◌else◌,
}
use ai_backend_engineer_hand.Coordination.Types.{
  accepted, claimed, dispatched, pending_reconciliation, verified_completed, failed, cancelled,
  handoff_state_eq, ResultVerificationStatus, verified, unknown_handoff, child_attempt_mismatch,
  output_contract_mismatch, source_version_stale, old_fence, other_owner, parent_terminal,
  handoff_not_ready, cancelled_before_dispatch, cooperative_cancellation_pending, nothing_to_cancel,
  terminal_noop, waiting_for_required, ready, partial, conflict, parent_is_terminal, SourceVersion,
  same_versions, released, HandoffRecord, ChildResultCandidate, ResultEvidence,
  CancellationDecision, AggregationDecision, CoordinationStore,
}
use ai_backend_engineer_hand.Coordination.Ownership.{with_record}

unfoldable pub mark_outcome_unknown :
    (id operation_id : String) → CoordinationStore → Bool × CoordinationStore
mark_outcome_unknown id operation_id s = elim (lookup id s.records) [
  | none ↦ (false, s)
  | some r ↦
      if not (r.state == dispatched) || not (r.operation_id == some operation_id)
      then (false, s)
      else (
        true,
        with_record id
            (record r { state = pending_reconciliation; state_version = r.state_version + 1 }) s,
      )
]

-- `cancel`. The allocation's status is "NONE" if there is no handoff.
unfoldable pub cancel_handoff :
    String → CoordinationStore → CancellationDecision × CoordinationStore
cancel_handoff id s = elim (lookup id s.records) [
  | none ↦ (record { status = nothing_to_cancel; handoff_id = id; allocation_status = none }, s)
  | some r ↦
      if r.state == cancelled || r.state == verified_completed
      then (
        record {
          status = terminal_noop;
          handoff_id = id;
          allocation_status = some r.allocation.status;
        },
        s,
      )
      else if r.state == accepted || r.state == claimed
      then (
        record {
          status = cancelled_before_dispatch;
          handoff_id = id;
          allocation_status = some released;
        },
        with_record id
            (record r {
              state = cancelled;
              state_version = r.state_version + 1;
              cancellation_requested = true;
              allocation = record r.allocation { status = released };
            })
            s,
      )
      else (
        record {
          status = cooperative_cancellation_pending;
          handoff_id = id;
          allocation_status = some r.allocation.status;
        },
        with_record id
            (record r {
              state = pending_reconciliation;
              state_version = r.state_version + 1;
              cancellation_requested = true;
            })
            s,
      )
]

-- The guards of a result in their order.
unfoldable pub verification_status :
    ChildResultCandidate → List SourceVersion → Bool → HandoffRecord → ResultVerificationStatus
verification_status c current_source_versions terminal r =
    if terminal
    then parent_terminal
    else if not (c.child_attempt_id == r.child_attempt_id)
    then child_attempt_mismatch
    else if not (c.output_contract == r.candidate.output_contract)
    then output_contract_mismatch
    else if not (same_versions c.source_versions r.candidate.context_source_versions)
        || not (same_versions current_source_versions c.source_versions)
    then source_version_stale
    else if not (c.fence_token == r.fence_token)
    then old_fence
    else if not (some c.worker_id == r.claim_owner)
    then other_owner
    else if not (r.state == dispatched)
    then handoff_not_ready
    else verified

-- `status is VERIFIED`.
unfoldable pub is_verified : ResultVerificationStatus → Bool
is_verified verified = true
is_verified _ = false

-- `verify_result`: the status, and whether the result was applied.
unfoldable pub verify_result :
    ChildResultCandidate
    → List SourceVersion
    → CoordinationStore
    → (ResultVerificationStatus × Bool) × CoordinationStore
verify_result c current_source_versions s = elim (lookup c.handoff_id s.records) [
  | none ↦ ((unknown_handoff, false), s)
  | some r ↦
      let status = verification_status c current_source_versions s.parent_terminal r in
      let noted = record s {
        result_evidence =
            s.result_evidence
            ++ record {
              candidate = c;
              status = status;
              applied_to_current_state = is_verified status;
            }
              ∷ [];
      } in
      if is_verified status
      then (
        (status, true),
        with_record c.handoff_id
            (record r { state = verified_completed; state_version = r.state_version + 1 }) noted,
      )
      else ((status, false), noted)
]

-- How many records satisfy a test.
unfoldable pub count_records : (HandoffRecord → Bool) → Dict HandoffRecord → ℕ
count_records test [] = 0
count_records test ((id, r) ∷ records) = (if test r then 1 else 0) + count_records test records

-- Some other applied result states another value of the same fact.
unfoldable pub contradicts : (key value : String) → List ResultEvidence → Bool
contradicts key value [] = false
contradicts key value (e ∷ evidence) =
    (e.applied_to_current_state
      && e.candidate.fact_key == key
      && not (e.candidate.fact_value == value))
    || contradicts key value evidence

-- `any(len(items) > 1 for items in values.values())`: a fact has two values.
unfoldable pub has_conflict : List ResultEvidence → Bool
has_conflict [] = false
has_conflict (e ∷ evidence) =
    (e.applied_to_current_state && contradicts e.candidate.fact_key e.candidate.fact_value evidence)
    || has_conflict evidence

abbrev pub is_verified_record : HandoffRecord → Bool
is_verified_record r = r.state == verified_completed

unfoldable pub aggregate : CoordinationStore → AggregationDecision
aggregate s =
    let required_total = count_records (λ r. r.candidate.required) s.records in
    let optional_total = count_records (λ r. not r.candidate.required) s.records in
    let required_verified =
      count_records (λ r. r.candidate.required && is_verified_record r) s.records in
    let optional_verified =
      count_records (λ r. not r.candidate.required && is_verified_record r) s.records in
    record {
      status =
          if s.parent_terminal
          then parent_is_terminal
          else if not (required_verified == required_total)
          then waiting_for_required
          else if has_conflict s.result_evidence
          then conflict
          else if not (optional_verified == optional_total)
          then partial
          else ready;
      required_total = required_total;
      required_verified = required_verified;
      optional_total = optional_total;
      optional_verified = optional_verified;
      failed = count_records (λ r. r.state == failed) s.records;
      pending_reconciliation = count_records (λ r. r.state == pending_reconciliation) s.records;
      parent_completed = false;
    }
