-- ===== src/Coordination/Store.antt =====
-- Acceptance and publication of handoffs (`InMemoryCoordinationStore` of
-- projects/ai-agent/src/multi_agent_coordination.py).
use ai_backend_engineer_hand.Prelude.{
  ℕ, String, ◌+◌, Bool, true, false, not, ◌&&◌, Option, none, some, List, [], ◌∷◌, Result, raise_if,
  ok, ◌>>◌, ◌==◌, string_eq, nat_eq, is_some, ltb, leb, is_in, length, Dict, lookup, insert, Sha256,
  join, prefixed, sorted, if◌then◌else◌,
}
use ai_backend_engineer_hand.Coordination.Types.{
  HandoffState, accepted, verified_completed, failed, cancelled, handoff_state_eq, AcceptanceStatus,
  newly_accepted, duplicate, semantic_conflict, scope_mismatch, capability_not_delegatable,
  capability_not_currently_allowed, output_contract_rejected, context_rejected, budget_exceeded,
  deadline_expired, delegation_depth_exceeded, fan_out_exceeded, concurrency_limit_reached,
  HandoffCandidate, Json, fingerprint, CurrentCoordinationFacts, held, released,
  CoordinationOutboxIntent, HandoffRecord, AcceptanceDecision, CoordinationStore,
}

-- `InMemoryCoordinationStore(...)`.
unfoldable pub new_coordination : String → ℕ → Result CoordinationStore
new_coordination parent_job_id reservation = do
  raise_if (leb reservation 0) "parent_token_reservation must be positive"
  ok (record {
    parent_job_id = parent_job_id;
    parent_token_reservation = reservation;
    records = [];
    result_evidence = [];
    parent_terminal = false;
  })

-- What a record holds of the parent's tokens.
unfoldable pub tokens_held : HandoffRecord → ℕ
tokens_held r = elim r.allocation.status [ held ↦ r.allocation.reserved_tokens | released ↦ 0 ]

-- `allocated_tokens`.
unfoldable pub allocated_tokens : Dict HandoffRecord → ℕ
allocated_tokens [] = 0
allocated_tokens ((id, r) ∷ records) = tokens_held r + allocated_tokens records

-- `unpublished_outbox_intents`.
unfoldable pub unpublished_handoffs : Dict HandoffRecord → List CoordinationOutboxIntent
unpublished_handoffs [] = []
unpublished_handoffs ((id, r) ∷ records) = elim r.outbox_intent.published_at [
  | none ↦ r.outbox_intent ∷ unpublished_handoffs records
  | some time ↦ unpublished_handoffs records
]

-- `state in {CANCELLED, VERIFIED_COMPLETED, FAILED}`.
unfoldable pub is_finished : HandoffState → Bool
is_finished cancelled = true
is_finished verified_completed = true
is_finished failed = true
is_finished _ = false

-- The records that are not finished.
unfoldable pub active_count : Dict HandoffRecord → ℕ
active_count [] = 0
active_count ((id, r) ∷ records) = (if is_finished r.state then 0 else 1) + active_count records

-- `set(items) <= set(others)`.
unfoldable pub is_subset : List String → List String → Bool
is_subset [] others = true
is_subset (item ∷ items) others = is_in item others && is_subset items others

-- `set(items)`, as a list without repetition.
unfoldable pub unique : List String → List String
unique [] = []
unique (item ∷ items) = let rest = unique items in if is_in item items then rest else item ∷ rest

module _ ⦃json : Json⦄ ⦃sha : Sha256⦄ where
  -- The record of a new handoff.
  unfoldable pub new_record : HandoffCandidate → HandoffRecord
  new_record c =
      let child_job_id = join "" (c.parent_job_id ∷ ":child:" ∷ c.handoff_id ∷ []) in
      let child_attempt_id = join "" (child_job_id ∷ ":attempt:1" ∷ []) in
      record {
        candidate = c;
        fingerprint = fingerprint c;
        child_job_id = child_job_id;
        child_attempt_id = child_attempt_id;
        grant = record {
          tenant_id = c.tenant_id;
          handoff_id = c.handoff_id;
          child_job_id = child_job_id;
          child_attempt_id = child_attempt_id;
          capabilities = sorted (unique c.requested_capabilities);
          policy_version = c.policy_version;
          expires_at = c.deadline;
        };
        allocation = record {
          parent_job_id = c.parent_job_id;
          handoff_id = c.handoff_id;
          reserved_tokens = c.requested_tokens;
          status = held;
        };
        outbox_intent = record {
          intent_id = prefixed "handoff-dispatch:" c.handoff_id;
          handoff_id = c.handoff_id;
          child_job_id = child_job_id;
          fingerprint = fingerprint c;
          published_at = none;
        };
        state = accepted;
        state_version = 1;
        claim_owner = none;
        lease_expires_at = none;
        fence_token = 0;
        operation_id = none;
        cancellation_requested = false;
      }

  -- The guards of a new handoff in their order: what refuses it.
  unfoldable pub refusal_of :
      HandoffCandidate → CurrentCoordinationFacts → ℕ → CoordinationStore → Option AcceptanceStatus
  refusal_of c facts now s =
      if not (c.tenant_id == facts.tenant_id)
      then some scope_mismatch
      else if not (c.policy_version == facts.current_policy_version)
      then some context_rejected
      else if leb c.deadline now
      then some deadline_expired
      else if ltb facts.max_delegation_depth c.delegation_depth
      then some delegation_depth_exceeded
      else if leb facts.max_fan_out (length s.records)
      then some fan_out_exceeded
      else if leb facts.concurrency_limit (active_count s.records)
      then some concurrency_limit_reached
      else if not (is_in c.output_contract facts.accepted_output_contracts)
      then some output_contract_rejected
      else if not (is_in c.context_manifest_id facts.readable_context_manifests)
      then some context_rejected
      else if not (is_subset c.requested_capabilities facts.delegatable_capabilities)
      then some capability_not_delegatable
      else if not (is_subset c.requested_capabilities facts.currently_allowed_capabilities)
      then some capability_not_currently_allowed
      else if ltb s.parent_token_reservation (allocated_tokens s.records + c.requested_tokens)
      then some budget_exceeded
      else none

  -- `AcceptanceDecision(status, candidate.handoff_id, fingerprint, record)`.
  abbrev pub acceptance :
      HandoffCandidate → AcceptanceStatus → Option HandoffRecord → AcceptanceDecision
  acceptance c status found = record {
    status = status;
    handoff_id = c.handoff_id;
    fingerprint = fingerprint c;
    record_found = found;
  }

  unfoldable pub accept_handoff :
      HandoffCandidate
      → CurrentCoordinationFacts
      → ℕ
      → CoordinationStore
      → AcceptanceDecision × CoordinationStore
  accept_handoff c facts now s = elim (lookup c.handoff_id s.records) [
    | some existing ↦ (
      acceptance c (if existing.fingerprint == fingerprint c then duplicate else semantic_conflict)
          (some existing),
      s,
    )
    | none ↦ elim (refusal_of c facts now s) [
      | some reason ↦ (acceptance c reason none, s)
      | none ↦ (
        acceptance c newly_accepted (some (new_record c)),
        record s { records = insert c.handoff_id (new_record c) s.records },
      )
    ]
  ]

unfoldable pub mark_outbox_published : String → ℕ → CoordinationStore → Bool × CoordinationStore
mark_outbox_published id published_at s = elim (lookup id s.records) [
  | none ↦ (false, s)
  | some r ↦
      let intent = record r.outbox_intent { published_at = some published_at } in
      if is_some r.outbox_intent.published_at
      then (true, s)
      else (true, record s { records = insert id (record r { outbox_intent = intent }) s.records })
]
