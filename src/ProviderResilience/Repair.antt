-- ===== src/ProviderResilience/Repair.antt =====
-- The repair of jobs that a release with no time to defer expired
-- (projects/ai-backend-data-layer/api/day56_provider_resilience.py). `repair_redispatch` runs under one
-- lock, so that it is one step.
use ai_backend_engineer_hand.Prelude.{
  ℕ, String, Bool, true, false, not, ◌||◌, Option, none, some, List, [], ◌∷◌, ◌++◌, Result, ok,
  raised, ◌==◌, string_eq, option_eq, leb, ltb, is_in, is_some, join, Dict, insert, contains, Float,
  if◌then◌else◌,
}
use ai_backend_engineer_hand.ProviderResilience.Jobs.{
  queued, expired, job_status_eq, DeferRecord, has_evidence, Job,
}
use ai_backend_engineer_hand.ProviderResilience.Ledger.{TenantBudgetLedger, reserve_worst_case}

pub record ReleaseConfig : Type 0 where
  pub version : String
  pub max_defer_seconds : ℕ

unfoldable pub rollback : ℕ → ReleaseConfig → ReleaseConfig
rollback safe_max_defer_seconds c = record c { max_defer_seconds = safe_max_defer_seconds }

pub data RepairAction : Type 0 where
  redispatch_new_outbox_intent reconcile_only : RepairAction

pub record OutboxDispatchIntent : Type 0 where
  pub job_id : String
  pub created_at : ℕ
  pub reason : String
  pub repair_id : String

pub data RepairOutcome : Type 0 where
  redispatched already_applied blocked_not_in_affected_set blocked_wrong_status blocked_cancelled
        blocked_deadline_passed blocked_provider_evidence blocked_budget :
      RepairOutcome

module _ (float : Float) where
  -- The tests on the recorded deferral: its reason and its time.
  abbrev pub deferred_within : Option DeferRecord → String → (start finish : ℕ) → Bool
  deferred_within none reason start finish = false
  deferred_within (some d) reason start finish =
      if not (d.retry_reason == reason)
      then false
      else not (ltb d.next_attempt_at start || ltb finish d.next_attempt_at)

  unfoldable pub build_capacity_expiry_affected_set :
      (release_version : String) (window_start window_end : ℕ) (expiry_reason : String)
      → List (Job float)
      → List String
  build_capacity_expiry_affected_set version start finish reason [] = []
  build_capacity_expiry_affected_set version start finish reason (j ∷ jobs) =
      let rest = build_capacity_expiry_affected_set version start finish reason jobs in
      if not (j.release_version == version) || not (j.status == expired)
      then rest
      else if not (deferred_within j.defer reason start finish)
      then rest
      else j.job_id ∷ rest

  unfoldable pub classify_incident_repair : Job float → ℕ → RepairAction
  classify_incident_repair job now =
      if has_evidence job.attempt
      then reconcile_only
      else if leb job.deadline now
      then reconcile_only
      else redispatch_new_outbox_intent

  unfoldable pub repair_id_for : Job float → String → String
  repair_id_for job version =
      join ":" ("repair" ∷ job.job_id ∷ version ∷ "defer_deadline_expired" ∷ [])

  -- The objects that a repair changes: the job, the outbox, the repairs by identity, the ledger.
  pub record Repair : Type 0 where
    pub job : Job float
    pub outbox : List OutboxDispatchIntent
    pub repairs : Dict ℕ
    pub ledger : TenantBudgetLedger float

  module _ (now : ℕ) (affected_set : List String) (version : String) where
    -- What a repair writes once the job is funded.
    unfoldable pub commit_repair : Repair → Repair
    commit_repair r =
        let rid = repair_id_for r.job version in
        record r {
          job = record r.job {
            repair_history =
                r.job.repair_history
                ++ record {
                  was_status = expired;
                  repair_id = rid;
                  repaired_at = now;
                  reason = "capacity_expiry_repair";
                }
                  ∷ [];
            status = queued;
            defer = none;
          };
          outbox =
              r.outbox
              ++ record {
                job_id = r.job.job_id;
                created_at = now;
                reason = "capacity_expiry_repair";
                repair_id = rid;
              }
                ∷ [];
          repairs = insert rid now r.repairs;
        }

    -- The new reservation, and the repair if it was made.
    unfoldable pub fund_repair : Repair → Result RepairOutcome × Repair
    fund_repair r =
        let (funded, job, ledger) = reserve_worst_case float r.job r.ledger in
        let reserved = record r { job = job; ledger = ledger } in
        elim funded [
          | raised error ↦ (raised error, reserved)
          | ok false ↦ (ok blocked_budget, reserved)
          | ok true ↦ (ok redispatched, commit_repair reserved)
        ]

    unfoldable pub repair_redispatch : Repair → Result RepairOutcome × Repair
    repair_redispatch r =
        if contains (repair_id_for r.job version) r.repairs
        then (ok already_applied, r)
        else if not (is_in r.job.job_id affected_set)
        then (ok blocked_not_in_affected_set, r)
        else if not (r.job.status == expired)
        then (ok blocked_wrong_status, r)
        else if is_some r.job.intent_kind
        then (ok blocked_cancelled, r)
        else elim (classify_incident_repair r.job now) [
          | reconcile_only ↦
              if has_evidence r.job.attempt
              then (ok blocked_provider_evidence, r)
              else (ok blocked_deadline_passed, r)
          | redispatch_new_outbox_intent ↦ fund_repair r
        ]
