-- ===== src/Coordination/Examples.antt =====
-- A parent with ten tokens hands one piece of work to a child.
use ai_backend_engineer_hand.Prelude.{
  ◌<◌, ℕ, String, ◌≡◌, ◌≢◌, ◌↔◌, ◌≤◌, refl, true, false, none, some, List, [], ◌∷◌, ok,
  String_discrete, lookup, sorted, insert_sorted, text_leb, text_digest, join, arith, is_in,
  string_eq,
}
use ai_backend_engineer_hand.Coordination.Types.{
  HandoffState-discrete, DispatchStatus-discrete, claimed, dispatched, verified, ready, allowed,
  newly_accepted, newly_claimed, SourceVersion, same_versions, HandoffCandidate, Json,
  CurrentCoordinationFacts, HandoffRecord, ChildResultCandidate, CoordinationStore,
}
use ai_backend_engineer_hand.Coordination.Store.{
  new_coordination, accept_handoff, new_record, refusal_of, unique, is_subset, active_count,
  allocated_tokens,
}
use ai_backend_engineer_hand.Coordination.Ownership.{
  with_record, unclaimed, claim_handoff, lease_runs, lease_ended, take_over_lease, DispatchRequest,
  authorize_provider_dispatch, record_provider_dispatch,
}
use ai_backend_engineer_hand.Coordination.Outcomes.{
  cancel_handoff, verification_status, is_verified, verify_result, aggregate,
}
use ai_backend_engineer_hand.Coordination.Evolution.{AllOwned, IsOwned}
use ai_backend_engineer_hand.Coordination.Histories.{here, next, accepting}
use ai_backend_engineer_hand.Coordination.Guarantees.{
  children_within_reservation, taken_over-fences, dispatched-once, verified-final,
}
use ai_backend_engineer_hand.Coordination.TakeOvers.{take_over-claims_iff}
use ai_backend_engineer_hand.Coordination.Acceptance.{MayAccept, accept_handoff-accepts_iff}
use ai_backend_engineer_hand.Coordination.Aggregation.{is_fact, all_verified, aggregate-ready_iff}
use ai_backend_engineer_hand.Coordination.Flow.{accepted_handoff_completes}

instance abbrev plain_json : Json
plain_json = record { quote = λ text. text }

abbrev candidate : HandoffCandidate
candidate = record {
  tenant_id = "tenant";
  parent_job_id = "parent";
  parent_attempt_id = "attempt";
  parent_step_id = "step";
  handoff_id = "handoff";
  idempotency_key = "key";
  policy_version = "policy";
  objective = "objective";
  input_contract = "input";
  output_contract = "output";
  context_manifest_id = "manifest";
  context_source_versions = [];
  requested_capabilities = "search" ∷ [];
  requested_tokens = 4;
  receiver_role = "role";
  aggregation_slot = "slot";
  required = true;
  deadline = 100;
  delegation_depth = 1;
}

abbrev facts : CurrentCoordinationFacts
facts = record {
  tenant_id = "tenant";
  delegatable_capabilities = "search" ∷ [];
  currently_allowed_capabilities = "search" ∷ [];
  accepted_output_contracts = "output" ∷ [];
  readable_context_manifests = "manifest" ∷ [];
  current_policy_version = "policy";
  max_delegation_depth = 2;
  max_fan_out = 3;
  concurrency_limit = 2;
}

abbrev empty : CoordinationStore
empty = record {
  parent_job_id = "parent";
  parent_token_reservation = 10;
  records = [];
  result_evidence = [];
  parent_terminal = false;
}

created : new_coordination "parent" 10 ≡ ok empty
unfolding new_coordination
created = refl

children_within_reservation_example :
    let t = (accept_handoff candidate facts 5 empty).1 in
    allocated_tokens t.records ≤ t.parent_token_reservation
children_within_reservation_example =
    children_within_reservation "parent" 10 empty (accept_handoff candidate facts 5 empty).1 created
      (next here (accepting candidate facts 5 empty))

accept_handoff-accepts_iff_example :
    let (d, s') = accept_handoff candidate facts 5 empty in
    ((d.status ≡ newly_accepted) ↔ MayAccept candidate facts 5 empty)
    × ((d.status ≢ newly_accepted) → s' ≡ empty)
    × ((d.status ≡ newly_accepted) → s' ≡ with_record "handoff" (new_record candidate) empty)
accept_handoff-accepts_iff_example = accept_handoff-accepts_iff candidate facts 5 empty

aggregate-ready_iff_example : ((aggregate empty).status ≡ ready) ↔ (
    (false ≡ false)
    × (all_verified [] ≡ true)
    × ((key v w : String) → is_fact key v [] ≡ true → is_fact key w [] ≡ true → v ≡ w))
aggregate-ready_iff_example = aggregate-ready_iff empty

-- The handoff when a worker holds it, and when it has dispatched it.
abbrev held_record : HandoffRecord
held_record = record (new_record candidate) {
  state = claimed;
  claim_owner = some "worker";
  lease_expires_at = some 20;
  fence_token = 1;
}

abbrev sent_record : HandoffRecord
sent_record = record held_record { state = dispatched; operation_id = some "operation" }

abbrev holding : HandoffRecord → CoordinationStore
holding r = record empty { records = ("handoff", r) ∷ [] }

found : (r : HandoffRecord) → lookup "handoff" (holding r).records ≡ some r
unfolding lookup String_discrete
found r = refl

owned_by : (r : HandoffRecord) → r.claim_owner ≡ some "worker" → AllOwned (holding r)
unfolding AllOwned IsOwned lookup
owned_by r o id q h n = ground (arith, o, h, n)

took :
    (take_over_lease "handoff" "other" 30 10 (holding held_record)).0
    ≡ ok (unclaimed newly_claimed "handoff" (some "other") (some 2))
unfolding take_over_lease lookup lease_runs String_discrete
took = refl

taken_over-fences_example :
    let t = (take_over_lease "handoff" "other" 30 10 (holding held_record)).1 in
    ((q : DispatchRequest)
      → q.fence_token ≤ 1
      → authorize_provider_dispatch "handoff" q t ≢ allowed)
    × ((c : ChildResultCandidate) (versions : List SourceVersion)
        → c.handoff_id ≡ "handoff"
        → c.fence_token ≤ 1
        → (verify_result c versions t).0.1 ≡ false)
taken_over-fences_example =
    taken_over-fences "handoff" "other" 30 10 (holding held_record)
      (take_over_lease "handoff" "other" 30 10 (holding held_record)).1 held_record
      (unclaimed newly_claimed "handoff" (some "other") (some 2)) (owned_by held_record refl)
      (found held_record) took refl here

take_over-claims_iff_example :
    let (answer, s') = take_over_lease "handoff" "other" 30 10 (holding held_record) in
    let claim = ok (unclaimed newly_claimed "handoff" (some "other") (some 2)) in
    ((answer ≡ claim)
      ↔ ((held_record.claim_owner ≢ none) × ((ends : ℕ) × (some 20 ≡ some ends) × (ends ≤ 30))))
    × ((answer ≢ claim) → s' ≡ holding held_record)
    × ((answer ≡ claim)
        → (q : DispatchRequest)
        → (authorize_provider_dispatch "handoff" q s' ≡ allowed) ↔ (
            (held_record.state ≡ claimed)
            × (q.worker_id ≡ "other")
            × (q.fence_token ≡ 2)
            × (q.now < 40)
            × (is_in q.required_capability held_record.grant.capabilities ≡ true)
            × (is_in q.required_capability q.current_allowed_capabilities ≡ true)))
take_over-claims_iff_example =
    take_over-claims_iff "handoff" "other" 30 10 (holding held_record) held_record
      (found held_record) (omega arith)

abbrev request : DispatchRequest
request = record {
  worker_id = "worker";
  fence_token = 1;
  required_capability = "search";
  current_allowed_capabilities = "search" ∷ [];
  now = 10;
}

dispatch_allowed :
    (record_provider_dispatch "handoff" request "operation" (holding held_record)).0 ≡ allowed
unfolding record_provider_dispatch authorize_provider_dispatch lookup lease_ended String_discrete
    HandoffState-discrete DispatchStatus-discrete new_record unique sorted insert_sorted text_leb
dispatch_allowed = refl

dispatched-once_example :
    authorize_provider_dispatch "handoff" request
      (record_provider_dispatch "handoff" request "operation" (holding held_record)).1
    ≢ allowed
dispatched-once_example =
    dispatched-once "handoff" request "operation" (holding held_record)
      (record_provider_dispatch "handoff" request "operation" (holding held_record)).1
      (owned_by held_record refl) dispatch_allowed here request

abbrev child_result : ChildResultCandidate
child_result = record {
  result_id = "result";
  handoff_id = "handoff";
  child_attempt_id = (new_record candidate).child_attempt_id;
  worker_id = "worker";
  fence_token = 1;
  output_contract = "output";
  source_versions = [];
  evidence_reference = "evidence";
  completeness = "complete";
  fact_key = "key";
  fact_value = "value";
}

result_verified : (verify_result child_result [] (holding sent_record)).0.1 ≡ true
unfolding verify_result verification_status is_verified lookup same_versions String_discrete
    HandoffState-discrete new_record join
result_verified = refl

verified-final_example :
    let t = (verify_result child_result [] (holding sent_record)).1 in
    ((q : DispatchRequest) → authorize_provider_dispatch "handoff" q t ≢ allowed)
    × ((d : ChildResultCandidate) (other_versions : List SourceVersion)
        → d.handoff_id ≡ "handoff"
        → (verify_result d other_versions t).0.1 ≡ false)
    × ((cancel_handoff "handoff" t).1 ≡ t)
verified-final_example =
    verified-final child_result [] (holding sent_record)
      (verify_result child_result [] (holding sent_record)).1 sent_record
      (owned_by sent_record refl) (found sent_record) result_verified here

handoff_accepted : (accept_handoff candidate facts 5 empty).0.status ≡ newly_accepted
unfolding accept_handoff refusal_of is_subset active_count allocated_tokens lookup String_discrete
handoff_accepted = refl

granted : is_in {A = String} "search" ("search" ∷ []) ≡ true
unfolding String_discrete
granted = refl

accepted_handoff_completes_example :
    let s₁ = (accept_handoff candidate facts 5 empty).1 in
    let s₂ = (claim_handoff "handoff" "worker" 6 10 s₁).1 in
    let (status, s₃) = record_provider_dispatch "handoff" request "operation" s₂ in
    (status ≡ allowed) × ((verify_result child_result [] s₃).0 ≡ (verified, true))
accepted_handoff_completes_example =
    accepted_handoff_completes candidate facts 5 empty 6 10 request "operation" child_result
      handoff_accepted refl (omega arith) (omega arith) refl granted granted refl refl refl refl
      refl refl
