-- ===== src/Coordination/Types.antt =====
-- The values that a handoff consists of (projects/ai-agent/src/multi_agent_coordination.py). The
-- canonical JSON text is written out, with the quoting of a text as a parameter.
use ai_backend_engineer_hand.Prelude.{
  ℕ, String, Bool, true, false, not, Option, List, [], ◌∷◌, map, Result, raise_if, ok, ◌>>◌, Eq,
  ◌==◌, holds, string_eq, nat_eq, leb, ◌&&◌, all_given, all_distinct, Sha256, str, join, sorted,
  if◌then◌else◌,
}

pub data HandoffState : Type 0 where
  accepted claimed dispatched pending_reconciliation verified_completed failed cancelled :
      HandoffState

unfoldable pub HandoffState-discrete : Discrete HandoffState
HandoffState-discrete = hlevel

instance abbrev pub handoff_state_eq : Eq HandoffState
handoff_state_eq = record { beq = λ a b. holds (HandoffState-discrete a b) }

pub data AcceptanceStatus : Type 0 where
  newly_accepted duplicate semantic_conflict scope_mismatch capability_not_delegatable
        capability_not_currently_allowed output_contract_rejected context_rejected budget_exceeded
        deadline_expired delegation_depth_exceeded fan_out_exceeded concurrency_limit_reached :
      AcceptanceStatus

pub data ClaimStatus : Type 0 where
  newly_claimed duplicate_claim already_claimed handoff_not_found handoff_not_claimable :
      ClaimStatus

pub data DispatchStatus : Type 0 where
  allowed no_handoff not_current_owner stale_fence lease_expired current_authorization_denied
        handoff_not_claimed :
      DispatchStatus

unfoldable pub DispatchStatus-discrete : Discrete DispatchStatus
DispatchStatus-discrete = hlevel

instance abbrev pub dispatch_status_eq : Eq DispatchStatus
dispatch_status_eq = record { beq = λ a b. holds (DispatchStatus-discrete a b) }

pub data ResultVerificationStatus : Type 0 where
  verified unknown_handoff child_attempt_mismatch output_contract_mismatch source_version_stale
        old_fence other_owner parent_terminal handoff_not_ready :
      ResultVerificationStatus

pub data CancellationStatus : Type 0 where
  cancelled_before_dispatch cooperative_cancellation_pending nothing_to_cancel terminal_noop :
      CancellationStatus

pub data AggregationStatus : Type 0 where
  waiting_for_required ready partial conflict parent_is_terminal : AggregationStatus

pub record SourceVersion : Type 0 where
  pub name : String
  pub version : ℕ

instance abbrev pub source_version_eq : Eq SourceVersion
source_version_eq = record { beq = λ a b. a.name == b.name && a.version == b.version }

-- Equality of tuples.
unfoldable pub same_versions : List SourceVersion → List SourceVersion → Bool
same_versions [] [] = true
same_versions (a ∷ xs) (b ∷ ys) = a == b && same_versions xs ys
same_versions _ _ = false

pub record HandoffCandidate : Type 0 where
  pub tenant_id : String
  pub parent_job_id : String
  pub parent_attempt_id : String
  pub parent_step_id : String
  pub handoff_id : String
  pub idempotency_key : String
  pub policy_version : String
  pub objective : String
  pub input_contract : String
  pub output_contract : String
  pub context_manifest_id : String
  pub context_source_versions : List SourceVersion
  pub requested_capabilities : List String
  pub requested_tokens : ℕ
  pub receiver_role : String
  pub aggregation_slot : String
  pub required : Bool
  pub deadline : ℕ
  pub delegation_depth : ℕ

-- `HandoffCandidate.__post_init__`.
unfoldable pub check_handoff : HandoffCandidate → Result HandoffCandidate
check_handoff c = do
  raise_if
      (not (
        all_given (
          c.tenant_id ∷ c.parent_job_id ∷ c.parent_attempt_id ∷ c.parent_step_id ∷ c.handoff_id
          ∷ c.idempotency_key ∷ c.policy_version ∷ c.objective ∷ c.input_contract
          ∷ c.output_contract ∷ c.context_manifest_id ∷ c.receiver_role ∷ c.aggregation_slot ∷ [])))
      "handoff identity and contracts must be non-empty"
  raise_if (leb c.requested_tokens 0) "requested_tokens must be positive"
  raise_if (leb c.delegation_depth 0) "delegation_depth must be positive"
  raise_if (not (all_distinct c.requested_capabilities)) "requested capabilities must be unique"
  ok c

-- The JSON text of a string, as `json.dumps` writes it.
pub record Json : Type 0 where
  pub quote : String → String

module _ ⦃json : Json⦄ where
  -- `[a,b]`, and `{"key":a}` of members that are sorted already.
  abbrev pub json_array : List String → String
  json_array items = join "" ("[" ∷ join "," items ∷ "]" ∷ [])

  abbrev pub json_object : List (String × String) → String
  json_object members = join "" (
      "{"
      ∷ join "," (map (λ (key, value). join ":" (json.quote key ∷ value ∷ [])) members)
      ∷ "}"
      ∷ [])

  abbrev pub json_truth : Bool → String
  json_truth b = if b then "true" else "false"

  -- `HandoffCandidate.fingerprint`.
  unfoldable pub fingerprint : ⦃sha : Sha256⦄ → HandoffCandidate → String
  fingerprint ⦃sha⦄ c = sha.hex_digest (
      json_object (
        ("aggregation_slot", json.quote c.aggregation_slot)
        ∷ ("context_manifest_id", json.quote c.context_manifest_id)
        ∷ (
          "context_source_versions",
          json_array (
              map (λ v. json_array (json.quote v.name ∷ str v.version ∷ []))
                c.context_source_versions),
        )
        ∷ ("deadline", str c.deadline)
        ∷ ("delegation_depth", str c.delegation_depth)
        ∷ ("input_contract", json.quote c.input_contract)
        ∷ ("objective", json.quote c.objective)
        ∷ ("output_contract", json.quote c.output_contract)
        ∷ ("parent_attempt_id", json.quote c.parent_attempt_id)
        ∷ ("parent_job_id", json.quote c.parent_job_id)
        ∷ ("parent_step_id", json.quote c.parent_step_id)
        ∷ ("policy_version", json.quote c.policy_version)
        ∷ ("receiver_role", json.quote c.receiver_role)
        ∷ ("requested_capabilities", json_array (map json.quote (sorted c.requested_capabilities)))
        ∷ ("requested_tokens", str c.requested_tokens)
        ∷ ("required", json_truth c.required)
        ∷ ("tenant_id", json.quote c.tenant_id)
        ∷ []))

pub record CurrentCoordinationFacts : Type 0 where
  pub tenant_id : String
  pub delegatable_capabilities : List String
  pub currently_allowed_capabilities : List String
  pub accepted_output_contracts : List String
  pub readable_context_manifests : List String
  pub current_policy_version : String
  pub max_delegation_depth : ℕ
  pub max_fan_out : ℕ
  pub concurrency_limit : ℕ

pub record DelegationGrant : Type 0 where
  pub tenant_id : String
  pub handoff_id : String
  pub child_job_id : String
  pub child_attempt_id : String
  pub capabilities : List String
  pub policy_version : String
  pub expires_at : ℕ

-- The texts "HELD" and "RELEASED".
pub data AllocationStatus : Type 0 where
  held released : AllocationStatus

pub record ChildAllocation : Type 0 where
  pub parent_job_id : String
  pub handoff_id : String
  pub reserved_tokens : ℕ
  pub status : AllocationStatus

pub record CoordinationOutboxIntent : Type 0 where
  pub intent_id : String
  pub handoff_id : String
  pub child_job_id : String
  pub fingerprint : String
  pub published_at : Option ℕ

pub record HandoffRecord : Type 0 where
  pub candidate : HandoffCandidate
  pub fingerprint : String
  pub child_job_id : String
  pub child_attempt_id : String
  pub grant : DelegationGrant
  pub allocation : ChildAllocation
  pub outbox_intent : CoordinationOutboxIntent
  pub state : HandoffState
  pub state_version : ℕ
  pub claim_owner : Option String
  pub lease_expires_at : Option ℕ
  pub fence_token : ℕ
  pub operation_id : Option String
  pub cancellation_requested : Bool

pub record AcceptanceDecision : Type 0 where
  pub status : AcceptanceStatus
  pub handoff_id : String
  pub fingerprint : String
  pub record_found : Option HandoffRecord

pub record ClaimDecision : Type 0 where
  pub status : ClaimStatus
  pub handoff_id : String
  pub owner : Option String
  pub fence_token : Option ℕ

pub record ChildResultCandidate : Type 0 where
  pub result_id : String
  pub handoff_id : String
  pub child_attempt_id : String
  pub worker_id : String
  pub fence_token : ℕ
  pub output_contract : String
  pub source_versions : List SourceVersion
  pub evidence_reference : String
  pub completeness : String
  pub fact_key : String
  pub fact_value : String

pub record ResultEvidence : Type 0 where
  pub candidate : ChildResultCandidate
  pub status : ResultVerificationStatus
  pub applied_to_current_state : Bool

pub record CancellationDecision : Type 0 where
  pub status : CancellationStatus
  pub handoff_id : String
  pub allocation_status : Option AllocationStatus

pub record AggregationDecision : Type 0 where
  pub status : AggregationStatus
  pub required_total : ℕ
  pub required_verified : ℕ
  pub optional_total : ℕ
  pub optional_verified : ℕ
  pub failed : ℕ
  pub pending_reconciliation : ℕ
  pub parent_completed : Bool

-- `InMemoryCoordinationStore`.
pub record CoordinationStore : Type 0 where
  pub parent_job_id : String
  pub parent_token_reservation : ℕ
  pub records : List (String × HandoffRecord)
  pub result_evidence : List ResultEvidence
  pub parent_terminal : Bool
