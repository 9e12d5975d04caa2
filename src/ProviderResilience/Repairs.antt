-- ===== src/ProviderResilience/Repairs.antt =====
-- The repair of expired jobs (`repair_redispatch` of
-- projects/ai-backend-data-layer/api/day56_provider_resilience.py): when it is made and what it writes.
use ai_backend_engineer_hand.Prelude.{
  ℕ, String, ◌≡◌, ◌≢◌, ◌↔◌, inl, inr, true, false, none, List, [], ◌∷◌, ◌++◌, ok, Option-cases,
  Result-cases, string_eq, leb, is_in, Dict, lookup, insert, contains, Float, arith,
}
use ai_backend_engineer_hand.ProviderResilience.Jobs.{queued, expired, has_evidence, Job}
use ai_backend_engineer_hand.ProviderResilience.Ledger.{TenantBudgetLedger, reserve_worst_case}
use ai_backend_engineer_hand.ProviderResilience.Repair.{
  redispatched, Repair, repair_id_for, classify_incident_repair, commit_repair, fund_repair,
  repair_redispatch,
}

module _ (float : Float) where
  -- What a repair needs.
  pub record MayRepair (job : Job float) (now : ℕ) (affected_set : List String) (version : String)
      (repairs : Dict ℕ) : Type 0 where
    pub fresh : contains (repair_id_for float job version) repairs ≡ false
    pub affected : is_in job.job_id affected_set ≡ true
    pub expired_job : job.status ≡ expired
    pub wanted : job.intent_kind ≡ none
    pub unsent : has_evidence job.attempt ≡ false
    pub in_time : leb job.deadline now ≡ false

  reserve_worst_case-id :
      (job : Job float) (l : TenantBudgetLedger float)
      → ((reserve_worst_case float job l).1.job_id ≡ job.job_id)
        × ((reserve_worst_case float job l).1.repair_history ≡ job.repair_history)
  unfolding reserve_worst_case
  reserve_worst_case-id job l = elim (Option-cases (lookup job.tenant_id l.balances)) [
    | inl e ↦ (ground arith, ground arith)
    | inr (balance, e) ↦ (ground arith, ground arith)
  ]

  fund_repair_facts :
      (now : ℕ) (affected_set : List String) (version : String) (r : Repair float)
      → let rid = repair_id_for float r.job version in
        let (funded, job, ledger) = reserve_worst_case float r.job r.ledger in
        let (answer, r') = fund_repair float now affected_set version r in
        ((answer ≡ ok redispatched) ↔ (funded ≡ ok true))
        × ((answer ≢ ok redispatched) → (r'.outbox ≡ r.outbox) × (r'.repairs ≡ r.repairs))
        × ((answer ≡ ok redispatched)
            → (r'.job.status ≡ queued)
              × (r'.job.job_id ≡ r.job.job_id)
              × (r'.outbox
                  ≡ r.outbox
                    ++ record {
                      job_id = r.job.job_id;
                      created_at = now;
                      reason = "capacity_expiry_repair";
                      repair_id = rid;
                    }
                      ∷ [])
              × (r'.repairs ≡ insert rid now r.repairs))
  unfolding fund_repair commit_repair repair_id_for
  fund_repair_facts now affected_set version r =
      let same = reserve_worst_case-id r.job r.ledger in
      elim (Result-cases (reserve_worst_case float r.job r.ledger).0) [
        | inr (error, e) ↦ ground (arith, same)
        | inl (true, e) ↦ ground (arith, same)
        | inl (false, e) ↦ ground (arith, same)
      ]

  -- exactly if
  pub repair_redispatch_iff :
      (now : ℕ) (affected_set : List String) (version : String) (r : Repair float)
      → let rid = repair_id_for float r.job version in
        let (answer, r') = repair_redispatch float now affected_set version r in
        ((answer ≡ ok redispatched) ↔ (
          MayRepair r.job now affected_set version r.repairs
          × ((reserve_worst_case float r.job r.ledger).0 ≡ ok true)))
        × ((answer ≢ ok redispatched) → (r'.outbox ≡ r.outbox) × (r'.repairs ≡ r.repairs))
        × ((answer ≡ ok redispatched)
            → (r'.job.status ≡ queued)
              × (r'.job.job_id ≡ r.job.job_id)
              × (r'.outbox
                  ≡ r.outbox
                    ++ record {
                      job_id = r.job.job_id;
                      created_at = now;
                      reason = "capacity_expiry_repair";
                      repair_id = rid;
                    }
                      ∷ [])
              × (r'.repairs ≡ insert rid now r.repairs))
  unfolding repair_redispatch classify_incident_repair
  repair_redispatch_iff now affected_set version r =
      let funding = fund_repair_facts now affected_set version r in
      (
        (
          λ h. (
            record {
              fresh = ground (arith, funding, h);
              affected = ground (arith, funding, h);
              expired_job = ground (arith, funding, h);
              wanted = ground (arith, funding, h);
              unsent = ground (arith, funding, h);
              in_time = ground (arith, funding, h);
            },
            ground (arith, funding, h),
          ),
          λ (m, funded). ground (
            arith, funding, funded, m.fresh, m.affected, m.expired_job, m.wanted, m.unsent,
            m.in_time,
          ),
        ),
        ground (arith, funding),
        ground (arith, funding),
      )
