-- ===== src/ProviderResilience/Jobs.antt =====
-- The job and its execution contract, and the pure classifications
-- (projects/ai-backend-data-layer/api/day56_provider_resilience.py; the kinds of intent are those of
-- day54_streaming_disconnects_timeouts_cancellation.py). Counts of tokens are natural numbers, prices
-- and costs floats, times whole microseconds.
use ai_backend_engineer_hand.Prelude.{
  ℕ, String, Bool, true, false, not, ◌||◌, ◌&&◌, Option, none, some, List, [], ◌∷◌, Result,
  raise_if, ok, ◌>>◌, Eq, ◌==◌, holds, string_eq, nat_eq, is_some, join, ltb, Float, if◌then◌else◌,
}

pub data IntentKind : Type 0 where
  user_cancellation deadline_expiry : IntentKind

pub data JobStatus : Type 0 where
  queued running deferred succeeded failed cancelled expired pending_reconciliation : JobStatus

unfoldable pub JobStatus-discrete : Discrete JobStatus
JobStatus-discrete = hlevel

instance abbrev pub job_status_eq : Eq JobStatus
job_status_eq = record { beq = λ a b. holds (JobStatus-discrete a b) }

-- `status in TERMINAL_STATUSES`.
unfoldable pub is_terminal_status : JobStatus → Bool
is_terminal_status succeeded = true
is_terminal_status failed = true
is_terminal_status cancelled = true
is_terminal_status expired = true
is_terminal_status _ = false

unfoldable pub terminal_for_intent : IntentKind → JobStatus
terminal_for_intent user_cancellation = cancelled
terminal_for_intent deadline_expiry = expired

-- `kind.value`.
unfoldable pub intent_value : IntentKind → String
intent_value user_cancellation = "user_cancellation"
intent_value deadline_expiry = "deadline_expiry"

pub data ProviderExecutionCertainty : Type 0 where
  definitely_not_accepted may_have_executed unknown : ProviderExecutionCertainty

pub data CostState : Type 0 where
  no_cost reserved reconciliation_pending settled : CostState

pub data AdmissionDecision : Type 0 where
  accept reject_429_tenant reject_503_system : AdmissionDecision

unfoldable pub admit_job : (tenant_over_quota system_unavailable : Bool) → AdmissionDecision
admit_job over_quota unavailable =
    if unavailable then reject_503_system else if over_quota then reject_429_tenant else accept

-- A text that may be missing, as a condition: there and not empty.
unfoldable pub is_truthy : Option String → Bool
is_truthy none = false
is_truthy (some s) = not (s == "")

-- `accepted_header is False`.
unfoldable pub is_false : Option Bool → Bool
is_false (some false) = true
is_false _ = false

-- Every status but a refused 429 is unknown: the gateway's errors, another 429 and the rest alike.
unfoldable pub classify_execution_certainty :
    ℕ → Option String → Option Bool → ProviderExecutionCertainty
classify_execution_certainty http_status request_id accepted_header =
    if is_truthy request_id
    then may_have_executed
    else if http_status == 429 && is_false accepted_header
    then definitely_not_accepted
    else unknown

unfoldable pub can_ordinary_retry : ProviderExecutionCertainty → Bool
can_ordinary_retry definitely_not_accepted = true
can_ordinary_retry _ = false

pub record Attempt : Type 0 where
  pub attempt_id : String
  pub job_id : String
  pub provider_idempotency_key : String
  pub correlation_id : String
  pub provider_request_id : Option String
  pub provider_dispatch_started_at : Option ℕ

-- `att is not None and (att.provider_request_id is not None or ...)`.
unfoldable pub has_evidence : Option Attempt → Bool
has_evidence none = false
has_evidence (some a) = is_some a.provider_request_id || is_some a.provider_dispatch_started_at

pub record DeferRecord : Type 0 where
  pub retry_reason : String
  pub next_attempt_at : ℕ
  pub defer_count : ℕ
  pub deadline : ℕ

pub record RepairEntry : Type 0 where
  pub was_status : JobStatus
  pub repair_id : String
  pub repaired_at : ℕ
  pub reason : String

module _ (float : Float) where
  open float use {F, add, mul, ratio, round_6}

  pub record ExecutionContract : Type 0 where
    pub provider : String
    pub account : String
    pub model : String
    pub region : String
    pub max_tokens : ℕ
    pub output_price_per_1k : F
    pub max_input_tokens : ℕ
    pub input_price_per_1k : F
    pub degradation_allowed : Bool
    pub min_model : Option String
    pub min_max_tokens : Option ℕ

  unfoldable pub circuit_key : ExecutionContract → String
  circuit_key c = join ":" ("circuit" ∷ c.provider ∷ c.account ∷ c.model ∷ c.region ∷ [])

  unfoldable pub worst_case_cost : ExecutionContract → F
  worst_case_cost c = round_6 (
      add (mul (ratio c.max_input_tokens 1000) c.input_price_per_1k)
        (mul (ratio c.max_tokens 1000) c.output_price_per_1k))

  -- `min_model is not None and target != min_model and target != model`.
  abbrev pub is_foreign_model : Option String → String → String → Bool
  is_foreign_model none model target = false
  is_foreign_model (some floor) model target = not (target == floor) && not (target == model)

  -- `min_max_tokens is not None and target < min_max_tokens`.
  abbrev pub is_below : Option ℕ → ℕ → Bool
  is_below none target = false
  is_below (some floor) target = ltb target floor

  unfoldable pub apply_authorized_degradation :
      ExecutionContract → String → ℕ → Result ExecutionContract
  apply_authorized_degradation c target_model target_max_tokens = do
    raise_if (not c.degradation_allowed) "degradation not authorized by the persisted contract"
    raise_if (is_foreign_model c.min_model c.model target_model)
        "target model is not an authorized degradation target"
    raise_if (is_below c.min_max_tokens target_max_tokens)
        "target max_tokens below the authorized floor"
    ok (record c { model = target_model; max_tokens = target_max_tokens })

  pub record Job : Type 0 where
    pub job_id : String
    pub tenant_id : String
    pub contract : ExecutionContract
    pub status : JobStatus
    pub deadline : ℕ
    pub cost_state : CostState
    pub reserved_cost : Option F
    pub settled_cost : Option F
    pub cost_overage : Option F
    pub repair_history : List RepairEntry
    pub attempt : Option Attempt
    pub intent_kind : Option IntentKind
    pub defer : Option DeferRecord
    pub execution_retry_count : ℕ
    pub defer_count : ℕ
    pub release_version : String
