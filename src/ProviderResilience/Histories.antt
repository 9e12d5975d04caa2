-- ===== src/ProviderResilience/Histories.antt =====
-- Sequences of repairs, and what a bad release leaves for them (`repair_redispatch` and
-- `build_capacity_expiry_affected_set` of
-- projects/ai-backend-data-layer/api/day56_provider_resilience.py).
use ai_backend_engineer_hand.Prelude.{
  ℕ, String, ◌≡◌, refl, ◌≢◌, ◌⊎◌, ok-injective, ap, inl, inr, Bool, true, false, ◌||◌, List, [],
  ◌∷◌, ◌++◌, map, Result, ok, raised, string_eq, is_in, all_distinct, Dict, insert, lookup-insert,
  lookup-insert_self, contains, Float, Clock, arith,
}
use ai_backend_engineer_hand.ProviderResilience.Jobs.{JobStatus, Job}
use ai_backend_engineer_hand.ProviderResilience.Ledger.{TenantBudgetLedger}
use ai_backend_engineer_hand.ProviderResilience.Dispatch.{
  DispatchDecision, defer_call, Shared, evaluate_dispatch,
}
use ai_backend_engineer_hand.ProviderResilience.Deferrals.{evaluate_dispatch-IsRecorded}
use ai_backend_engineer_hand.ProviderResilience.Repair.{
  redispatched, already_applied, OutboxDispatchIntent, RepairOutcome, Repair, repair_id_for,
  repair_redispatch, build_capacity_expiry_affected_set,
}
use ai_backend_engineer_hand.ProviderResilience.Repairs.{repair_redispatch_iff}

is_in-append : (a : String) (xs ys : List String) → is_in a (xs ++ ys) ≡ (is_in a xs || is_in a ys)
is_in-append a [] ys = refl
is_in-append a (x ∷ xs) ys = ground (arith, is_in-append a xs ys)

all_distinct-append :
    (xs : List String) (a : String)
    → all_distinct xs ≡ true
    → is_in a xs ≡ false
    → all_distinct (xs ++ a ∷ []) ≡ true
all_distinct-append [] a d n = refl
all_distinct-append (x ∷ xs) a d n =
    ground (arith, all_distinct-append xs a, is_in-append x xs (a ∷ []))

unfoldable pub ids : List OutboxDispatchIntent → List String
ids outbox = map (λ intent. intent.repair_id) outbox

ids-append :
    (outbox : List OutboxDispatchIntent) (intent : OutboxDispatchIntent)
    → ids (outbox ++ intent ∷ []) ≡ ids outbox ++ intent.repair_id ∷ []
unfolding ids
ids-append [] intent = refl
ids-append (first ∷ outbox) intent = ground (arith, ids-append outbox intent)

-- No repair has two intents, and every intent's repair is remembered.
pub record IsOnce (outbox : List OutboxDispatchIntent) (repairs : Dict ℕ) : Type 0 where
  pub distinct : all_distinct (ids outbox) ≡ true
  pub remembered : (id : String) → is_in id (ids outbox) ≡ true → contains id repairs ≡ true

insert-remembers :
    (rid id : String) (now : ℕ) (repairs : Dict ℕ)
    → contains id repairs ≡ true
    → contains id (insert rid now repairs) ≡ true
insert-remembers rid id now repairs h = ground (arith, lookup-insert rid id now repairs)

-- One more intent, of a repair that is not remembered yet.
IsOnce-append :
    (outbox : List OutboxDispatchIntent) (repairs : Dict ℕ) (intent : OutboxDispatchIntent)
    (now : ℕ)
    → IsOnce outbox repairs
    → contains intent.repair_id repairs ≡ false
    → IsOnce (outbox ++ intent ∷ []) (insert intent.repair_id now repairs)
IsOnce-append outbox repairs intent now o fresh = record {
  distinct = ground (
    arith,
    ids-append outbox intent,
    o.remembered intent.repair_id,
    all_distinct-append (ids outbox) intent.repair_id o.distinct,
  );
  remembered = λ id h. ground (
    arith,
    ids-append outbox intent,
    o.remembered id,
    is_in-append id (ids outbox) (intent.repair_id ∷ []),
    lookup-insert intent.repair_id id now repairs,
  );
}

IsOnce-eq :
    (outbox outbox' : List OutboxDispatchIntent) (repairs repairs' : Dict ℕ)
    → outbox' ≡ outbox
    → repairs' ≡ repairs
    → IsOnce outbox repairs
    → IsOnce outbox' repairs'
IsOnce-eq outbox outbox' repairs repairs' e f o = record {
  distinct = ground (arith, o.distinct);
  remembered = λ id h. ground (arith, o.remembered id);
}

Outcome-discrete : Discrete RepairOutcome
Outcome-discrete = hlevel

Outcome-cases : (a : Result RepairOutcome) → (a ≡ ok redispatched) ⊎ (a ≢ ok redispatched)
Outcome-cases (raised error) = inr λ h. cc
Outcome-cases (ok outcome) = elim (Outcome-discrete outcome redispatched) [
  | yes same ↦ inl (ap ok same)
  | no other ↦ inr λ h. other (ok-injective h)
]

module _ (float : Float) where
  -- A repair of any job, the ledger having changed in any way since the last one.
  pub data Step : Repair float → Repair float → Type 0 where
    repair :
        (job : Job float) (ledger : TenantBudgetLedger float) (now : ℕ) (affected_set : List String)
        (version : String) (r : Repair float)
        → Step r
            (repair_redispatch float now affected_set version
              (record r { job = job; ledger = ledger })).1

  pub data Reaches (r : Repair float) : Repair float → Type 0 where
    here : Reaches r r
    next : {t u : Repair float} → Reaches r t → Step t u → Reaches r u

  Step-remembers :
      {r t : Repair float} (id : String)
      → Step r t
      → contains id r.repairs ≡ true
      → contains id t.repairs ≡ true
  Step-remembers id (repair job ledger now set version r) h =
      let given = record r { job = job; ledger = ledger } in
      ground (
        arith,
        repair_redispatch_iff float now set version given,
        insert-remembers (repair_id_for float job version) id now r.repairs,
      )

  Reaches-remembers :
      {r t : Repair float} (id : String)
      → Reaches r t
      → contains id r.repairs ≡ true
      → contains id t.repairs ≡ true
  Reaches-remembers id here h = h
  Reaches-remembers id (next q st) h = Step-remembers id st (Reaches-remembers id q h)

  Step-IsOnce :
      {r t : Repair float} → Step r t → IsOnce r.outbox r.repairs → IsOnce t.outbox t.repairs
  Step-IsOnce (repair job ledger now set version r) o =
      let given = record r { job = job; ledger = ledger } in
      let (answer, t) = repair_redispatch float now set version given in
      let rid = repair_id_for float job version in
      let (made, other, written) = repair_redispatch_iff float now set version given in
      elim (Outcome-cases answer) [
        | inr n ↦
            let (same_outbox, same_repairs) = other n in
            IsOnce-eq r.outbox t.outbox r.repairs t.repairs same_outbox same_repairs o
        | inl h ↦
            let (status, same_job, new_outbox, new_repairs) = written h in
            IsOnce-eq _ t.outbox _ t.repairs new_outbox new_repairs (
              IsOnce-append r.outbox r.repairs
                (record {
                  job_id = job.job_id;
                  created_at = now;
                  reason = "capacity_expiry_repair";
                  repair_id = rid;
                })
                now o (made.0 h).0.fresh)
      ]

  Reaches-IsOnce :
      {r t : Repair float} → Reaches r t → IsOnce r.outbox r.repairs → IsOnce t.outbox t.repairs
  Reaches-IsOnce here o = o
  Reaches-IsOnce (next q st) o = Step-IsOnce st (Reaches-IsOnce q o)

  Reaches-trans : {r t u : Repair float} → Reaches r t → Reaches t u → Reaches r u
  Reaches-trans q here = q
  Reaches-trans q (next p st) = next (Reaches-trans q p) st

  repair_id-eq :
      (j k : Job float) (version : String)
      → j.job_id ≡ k.job_id
      → repair_id_for float j version ≡ repair_id_for float k version
  unfolding repair_id_for
  repair_id-eq j k version same = cc

  -- If the outbox has no repair twice and every intent's repair is remembered, then once a job is
  -- re-dispatched by a repair, after every sequence of repairs of any jobs a further repair of that
  -- job in that release is already applied and changes nothing, and still no repair has two intents
  -- in the outbox.
  pub repaired-once :
      (now : ℕ) (affected_set : List String) (version : String) (r : Repair float) (job : Job float)
      (ledger : TenantBudgetLedger float) (later : ℕ) (others : List String) {u : Repair float}
      → IsOnce r.outbox r.repairs
      → (repair_redispatch float now affected_set version r).0 ≡ ok redispatched
      → Reaches (repair_redispatch float now affected_set version r).1 u
      → job.job_id ≡ r.job.job_id
      → let again = record u { job = job; ledger = ledger } in
        (repair_redispatch float later others version again ≡ (ok already_applied, again))
        × (all_distinct (ids u.outbox) ≡ true)
  unfolding repair_redispatch
  repaired-once now set version r job ledger later others o h q same =
      let (made, other, written) = repair_redispatch_iff float now set version r in
      let rid = repair_id_for float r.job version in
      let first = repair r.job r.ledger now set version r in
      let once = Reaches-IsOnce (Reaches-trans (next here first) q) o in
      let remembered =
        Reaches-remembers rid q (ground (arith, written h, lookup-insert_self rid now r.repairs)) in
      (ground (arith, remembered, repair_id-eq job r.job version same), once.distinct)

  -- A job that an evaluation defers is not in the set of jobs affected by a bad release, looked up
  -- by the default reason, in whatever status it ends up.
  pub deferred-not_affected :
      (clock : Clock float) (others : ℕ → Shared float clock → Shared float clock) (now : ℕ)
      (rand : ℕ → float.F) (fail_open : Bool) (job : Job float) (s : Shared float clock)
      (version : String) (start finish : ℕ) (status : JobStatus) (d : DispatchDecision)
      → let (answer, job', s') = evaluate_dispatch float clock others now rand fail_open job s in
        answer ≡ ok d
        → d.action ≡ defer_call
        → build_capacity_expiry_affected_set float version start finish "defer_deadline_expired"
            (record job' { status = status } ∷ [])
          ≡ []
  unfolding build_capacity_expiry_affected_set
  deferred-not_affected clock others now rand fail_open job s version start finish status d h a =
      let recorded = evaluate_dispatch-IsRecorded float clock others now rand fail_open job s d h in
      let (note, noted, planned, reasoned, ends) = recorded.noted a in
      ground (arith, noted, reasoned, recorded.named a)
