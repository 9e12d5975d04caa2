-- ===== src/Reconciliation/Commits.antt =====
-- What the committer and its store promise: an outcome is committed once, from a resolved proposal on
-- a pending record, and is never rewritten.
use ai_backend_engineer_hand.Prelude.{
  ℕ, String, ◌≡◌, refl, ◌≢◌, ◌↔◌, ◌⊎◌, inl, inr, true, Bool, string_eq, Option, none, some,
  Option-cases, Bool-cases, ok, lookup, insert, lookup-insert, lookup-insert_self, arith,
}
use ai_backend_engineer_hand.Reconciliation.Types.{
  ApplicationOperationBinding, same_binding, is_resolved, ReconciliationDecision,
}
use ai_backend_engineer_hand.Reconciliation.Store.{
  pending, completed, ReconciliationRecord, ReconciliationStore, pending_record, add_pending,
  Resolution, resolved_record, set_completed, committed, commit_conflict, business_outcome_of,
  compliance_outcome_of, commit_resolution,
}

-- The fields of two bindings agree.
pub record Agrees (a b : ApplicationOperationBinding) : Type 0 where
  pub operation_id : a.operation_id ≡ b.operation_id
  pub idempotency_key : a.idempotency_key ≡ b.idempotency_key
  pub tenant_id : a.tenant_id ≡ b.tenant_id
  pub resource_id : a.resource_id ≡ b.resource_id

pub same_binding_iff : (a b : ApplicationOperationBinding) → (same_binding a b ≡ true) ↔ Agrees a b
unfolding same_binding
same_binding_iff a b = ground arith

-- A record that waits for the outcome of a binding, at a version.
pub record Awaits (b : ApplicationOperationBinding) (expected : ℕ) (r : ReconciliationRecord)
    : Type 0 where
  pub binding : Agrees r.binding b
  pub state : r.state ≡ pending
  pub version : r.version ≡ expected

set_completed-cases :
    (b : ApplicationOperationBinding) (expected : ℕ) (v : Resolution) (s : ReconciliationStore)
    → let (result, s') = set_completed b expected v s in
      ((result ≡ none) × (s' ≡ s))
      ⊎ ((r : ReconciliationRecord) × (lookup b.operation_id s ≡ some r)
          × Awaits b expected r
          × (result ≡ some (resolved_record v r))
          × (s' ≡ insert b.operation_id (resolved_record v r) s))
unfolding set_completed
set_completed-cases b expected v s = elim (Option-cases (lookup b.operation_id s)) [
  | inl unknown ↦ inl (ground arith)
  | inr (r, found) ↦ elim (Bool-cases (same_binding r.binding b)) [
    | inr other ↦ inl (ground arith)
    | inl same ↦ elim (Option-cases (set_completed b expected v s).0) [
      | inl refused ↦ inl (ground arith)
      | inr (q, written) ↦
          inr (r, found, ground (arith, same_binding_iff r.binding b), ground arith, ground arith)
    ]
  ]
]

-- What is written for a proposal.
abbrev pub resolution_of : ReconciliationDecision → Bool → String → Resolution
resolution_of d authorized source = record {
  business_outcome = business_outcome_of d.kind;
  compliance_outcome = compliance_outcome_of (business_outcome_of d.kind) authorized;
  external_object_id = d.external_object_id;
  evidence_source = source;
}

-- The conditions of a commit, and what it writes.
pub record IsCommitted (d : ReconciliationDecision) (expected : ℕ) (authorized : Bool)
    (s s' : ReconciliationStore) (after : Option ReconciliationRecord) : Type 0 where
  pub resolved : is_resolved d.kind ≡ true
  pub written :
      (source : String) × (r : ReconciliationRecord) × (d.evidence_source ≡ some source)
      × (lookup d.binding.operation_id s ≡ some r)
      × Awaits d.binding expected r
      × (after ≡ some (resolved_record (resolution_of d authorized source) r))
      × (s'
          ≡ insert d.binding.operation_id (resolved_record (resolution_of d authorized source) r) s)

commit_conflict-ne_committed :
    (found : Option ReconciliationRecord) (b : ApplicationOperationBinding) (expected : ℕ)
    → commit_conflict found b expected ≢ some committed
unfolding commit_conflict
commit_conflict-ne_committed none b expected h = cc
commit_conflict-ne_committed (some r) b expected h = ground arith

-- A commit changes nothing and is not reported as committed, or it is committed under its conditions,
-- at the store that it writes to, whatever the store was when it read.
pub commit_resolution-cases :
    (d : ReconciliationDecision) (expected : ℕ) (authorized : Bool) (seen s : ReconciliationStore)
    → let (result, s') = commit_resolution d expected authorized seen s in
      ((result.outcome ≢ committed) × (s' ≡ s))
      ⊎ ((result.outcome ≡ committed) × IsCommitted d expected authorized s s' result.record_after)
unfolding commit_resolution
commit_resolution-cases d expected authorized seen s = elim (Option-cases d.evidence_source) [
  | inl unsourced ↦ inl (ground arith)
  | inr (source, sourced) ↦ elim (Bool-cases (is_resolved d.kind)) [
    | inr open_kind ↦ inl (ground arith)
    | inl resolved ↦
        let refused =
          commit_conflict-ne_committed (lookup d.binding.operation_id seen) d.binding expected in
        elim (Option-cases
          (commit_conflict (lookup d.binding.operation_id seen) d.binding expected)) [
            | inr (outcome, conflict) ↦ inl (ground (arith, refused))
            | inl free ↦
                elim (set_completed-cases d.binding expected (resolution_of d authorized source)
                  s) [
                    | inl (lost, same) ↦ inl (ground arith)
                    | inr (r, found, awaits, written, store) ↦ inr (
                      ground arith,
                      record {
                        resolved = resolved;
                        written = (source, r, sourced, found, awaits, ground arith, ground arith);
                      },
                    )
                  ]
          ]
  ]
]

-- One call that returns, by any caller; a commit may write to another store than it has read.
pub data Step : ReconciliationStore → ReconciliationStore → Type 0 where
  register :
      (s t : ReconciliationStore) (b : ApplicationOperationBinding)
      → add_pending b s ≡ ok t
      → Step s t
  resolve :
      (seen s : ReconciliationStore) (d : ReconciliationDecision) (expected : ℕ) (authorized : Bool)
      → Step s (commit_resolution d expected authorized seen s).1

pub data Reaches (s : ReconciliationStore) : ReconciliationStore → Type 0 where
  here : Reaches s s
  next : {t u : ReconciliationStore} → Reaches s t → Step t u → Reaches s u

Step-completed :
    (id : String) (r : ReconciliationRecord) {s t : ReconciliationStore}
    → Step s t
    → lookup id s ≡ some r
    → r.state ≡ completed
    → lookup id t ≡ some r
unfolding add_pending
Step-completed id r (register s t b h) found done =
    ground (arith, lookup-insert b.operation_id id (pending_record b) s)
Step-completed id r (resolve seen s d expected authorized) found done =
    elim (commit_resolution-cases d expected authorized seen s) [
      | inl (_, same) ↦ rw same found
      | inr (_, c) ↦
          let (source, q, _, waiting, awaits, _, store) = c.written in
          let written = resolved_record (resolution_of d authorized source) q in
          rw store (ground (arith, lookup-insert d.binding.operation_id id written s, awaits.state))
    ]

Reaches-completed :
    (id : String) (r : ReconciliationRecord) {s t : ReconciliationStore}
    → Reaches s t
    → lookup id s ≡ some r
    → r.state ≡ completed
    → lookup id t ≡ some r
Reaches-completed id r here found done = found
Reaches-completed id r (next before st) found done =
    Step-completed id r st (Reaches-completed id r before found done) done

-- Once the outcome of an operation is committed, its record is the committed one after any history
-- of registrations and commits, and no further commit for it, whatever it has read before, is
-- committed or changes anything.
pub committed-final :
    (d other : ReconciliationDecision) (expected later : ℕ) (authorized again : Bool)
    (seen s seen' : ReconciliationStore) {t : ReconciliationStore}
    → (commit_resolution d expected authorized seen s).0.outcome ≡ committed
    → Reaches (commit_resolution d expected authorized seen s).1 t
    → other.binding.operation_id ≡ d.binding.operation_id
    → (lookup d.binding.operation_id t
        ≡ (commit_resolution d expected authorized seen s).0.record_after)
      × ((commit_resolution other later again seen' t).0.outcome ≢ committed)
      × ((commit_resolution other later again seen' t).1 ≡ t)
unfolding resolved_record
committed-final d other expected later authorized again seen s seen' {t} won reached same =
    elim (commit_resolution-cases d expected authorized seen s) [
      | inl (lost, _) ↦ absurd (lost won)
      | inr (_, c) ↦
          let (source, r, _, _, _, after, store) = c.written in
          let id = d.binding.operation_id in
          let written = resolved_record (resolution_of d authorized source) r in
          let mine : lookup id (commit_resolution d expected authorized seen s).1 ≡ some written =
            rw store (lookup-insert_self id written s) in
          let kept : lookup id t ≡ some written = Reaches-completed id written reached mine refl in
          elim (commit_resolution-cases other later again seen' t) [
            | inl (refused, unchanged) ↦ (ground arith, refused, unchanged)
            | inr (_, k) ↦
                let (_, q, _, found, awaits, _, _) = k.written in
                absurd (ground (arith, same, kept, found, awaits.state))
          ]
    ]

-- A resolved proposal with a source, for a record that waits for it, is committed if nothing comes
-- between its read and its write.
pub commit_resolution-succeeds :
    (d : ReconciliationDecision) (expected : ℕ) (authorized : Bool) (s : ReconciliationStore)
    (source : String) (r : ReconciliationRecord)
    → is_resolved d.kind ≡ true
    → d.evidence_source ≡ some source
    → lookup d.binding.operation_id s ≡ some r
    → Awaits d.binding expected r
    → (commit_resolution d expected authorized s s).0.outcome ≡ committed
unfolding commit_resolution commit_conflict set_completed
commit_resolution-succeeds d expected authorized s source r resolved sourced found awaits =
    ground (arith, (same_binding_iff r.binding d.binding).1 awaits.binding)
