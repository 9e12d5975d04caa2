-- ===== src/Coordination/Evolution.antt =====
-- How the record of a handoff changes (projects/ai-agent/src/multi_agent_coordination.py): every
-- operation of the store keeps what an earlier one has settled.
use ai_backend_engineer_hand.Prelude.{
  ℕ, String, ◌≡◌, refl, ◌⊎◌, ◌≤◌, none, some, sym, String_discrete, string_eq, nat_eq, option_eq,
  lookup, lookup-insert, arith,
}
use ai_backend_engineer_hand.Coordination.Types.{
  HandoffState, handoff_state_eq, accepted, claimed, dispatched, pending_reconciliation,
  verified_completed, failed, cancelled, HandoffRecord, CoordinationStore,
}
use ai_backend_engineer_hand.Coordination.Ownership.{with_record}

-- How far a handoff is.
unfoldable pub progress : HandoffState → ℕ
progress accepted = 0
progress claimed = 1
progress dispatched = 2
progress failed = 2
progress pending_reconciliation = 3
progress verified_completed = 4
progress cancelled = 5

-- Without an owner a handoff has not been started.
unfoldable pub IsOwned : HandoffRecord → Type 0
IsOwned r = r.claim_owner ≡ none → (r.state ≡ accepted) ⊎ (r.state ≡ cancelled)

-- What a later record of a handoff keeps of an earlier one.
pub record Evolves (r r' : HandoffRecord) : Type 0 where
  pub same_candidate : r'.candidate ≡ r.candidate
  pub same_attempt : r'.child_attempt_id ≡ r.child_attempt_id
  pub fences : r.fence_token ≤ r'.fence_token
  pub owners : r'.fence_token ≡ r.fence_token → r'.claim_owner ≡ r.claim_owner
  pub forward : progress r.state ≤ progress r'.state
  pub finished : 4 ≤ progress r.state → r'.state ≡ r.state
  pub owned : IsOwned r'

module _ where
  pub Evolves-refl : (r : HandoffRecord) → IsOwned r → Evolves r r
  Evolves-refl r o = record {
    same_candidate = refl;
    same_attempt = refl;
    fences = omega arith;
    owners = λ h. refl;
    forward = omega arith;
    finished = λ h. refl;
    owned = o;
  }

  pub Evolves-trans : (r s t : HandoffRecord) → Evolves r s → Evolves s t → Evolves r t
  Evolves-trans r s t e f = record {
    same_candidate = ground (arith, e.same_candidate, f.same_candidate);
    same_attempt = ground (arith, e.same_attempt, f.same_attempt);
    fences = omega (arith, e.fences, f.fences);
    owners = λ h. ground (arith, e.fences, f.fences, e.owners, f.owners);
    forward = omega (arith, e.forward, f.forward);
    finished = λ h. ground (arith, e.forward, e.finished, f.finished, h);
    owned = f.owned;
  }

-- Every handoff of the first store is one of the second, and has evolved.
unfoldable pub Keeps : CoordinationStore → CoordinationStore → Type 0
Keeps s t =
    (id : String) (r : HandoffRecord)
    → lookup id s.records ≡ some r
    → (r' : HandoffRecord) × (lookup id t.records ≡ some r') × Evolves r r'

unfoldable pub AllOwned : CoordinationStore → Type 0
AllOwned s = (id : String) (r : HandoffRecord) → lookup id s.records ≡ some r → IsOwned r

-- What an operation may do to the handoffs.
unfoldable pub Follows : CoordinationStore → CoordinationStore → Type 0
Follows s t = Keeps s t × AllOwned t

pub Follows-refl : (s : CoordinationStore) → AllOwned s → Follows s s
unfolding Follows Keeps AllOwned
Follows-refl s o = (λ id r h. (r, h, Evolves-refl r (o id r h)), o)

pub Follows-trans : (s t u : CoordinationStore) → Follows s t → Follows t u → Follows s u
unfolding Follows Keeps
Follows-trans s t u (k, o) (l, p) = (
  λ id r h.
      let (r₁, h₁, e₁) = k id r h in
      let (r₂, h₂, e₂) = l id r₁ h₁ in (r₂, h₂, Evolves-trans r r₁ r₂ e₁ e₂),
  p,
)

pub Follows-owned : (s t : CoordinationStore) → Follows s t → AllOwned t
unfolding Follows
Follows-owned s t f = f.1

with_record-Follows :
    (id : String) (r r' : HandoffRecord) (s : CoordinationStore)
    → AllOwned s
    → lookup id s.records ≡ some r
    → Evolves r r'
    → Follows s (with_record id r' s)
unfolding Follows Keeps AllOwned
with_record-Follows id r r' s o h e = (
  λ j q g. elim (String_discrete id j) [
    | yes same ↦
        let kept : r ≡ q = cc (same, g, h) in
        (r', ground (arith, lookup-insert id j r' s.records), rw (sym kept) e)
    | no other ↦ (q, ground (arith, lookup-insert id j r' s.records), Evolves-refl q (o j q g))
  ],
  λ j q g. elim (String_discrete id j) [
    | yes same ↦
        let new : r' ≡ q = ground (arith, lookup-insert id j r' s.records, g) in
        rw (sym new) e.owned
    | no other ↦ o j q (ground (arith, lookup-insert id j r' s.records))
  ],
)

pub same-Follows : (s t : CoordinationStore) → AllOwned s → t ≡ s → Follows s t
same-Follows s t o e = rw e (Follows-refl s o)

-- An operation that writes one record.
pub write-Follows :
    (id : String) (r r' : HandoffRecord) (s t : CoordinationStore)
    → AllOwned s
    → lookup id s.records ≡ some r
    → t ≡ with_record id r' s
    → Evolves r r'
    → Follows s t
write-Follows id r r' s t o h e v = rw e (with_record-Follows id r r' s o h v)
