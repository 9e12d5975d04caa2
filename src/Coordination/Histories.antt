-- ===== src/Coordination/Histories.antt =====
-- Every sequence of calls of `InMemoryCoordinationStore`
-- (projects/ai-agent/src/multi_agent_coordination.py).
use ai_backend_engineer_hand.Prelude.{
  ℕ, String, refl, Bool, List, string_eq, nat_eq, option_eq, Sha256,
}
use ai_backend_engineer_hand.Coordination.Types.{
  handoff_state_eq, dispatch_status_eq, HandoffCandidate, Json, CurrentCoordinationFacts,
  ChildResultCandidate, SourceVersion, CoordinationStore,
}
use ai_backend_engineer_hand.Coordination.Store.{accept_handoff, mark_outbox_published}
use ai_backend_engineer_hand.Coordination.Ownership.{
  claim_handoff, take_over_lease, DispatchRequest, record_provider_dispatch,
}
use ai_backend_engineer_hand.Coordination.Outcomes.{
  mark_outcome_unknown, cancel_handoff, verify_result,
}
use ai_backend_engineer_hand.Coordination.Evolution.{
  AllOwned, Follows, Follows-refl, Follows-trans, Follows-owned,
}
use ai_backend_engineer_hand.Coordination.Changes.{
  mark_outbox_published-Follows, claim_handoff-Follows, take_over-Follows,
  record_provider_dispatch-Follows, mark_outcome_unknown-Follows, cancel_handoff-Follows,
  verify_result-Follows, accept_handoff-Follows, evidence-Follows,
}
use ai_backend_engineer_hand.Coordination.Allocations.{
  IsFunded, mark_outbox_published-IsFunded, claim_handoff-IsFunded, take_over-IsFunded,
  record_provider_dispatch-IsFunded, mark_outcome_unknown-IsFunded, cancel_handoff-IsFunded,
  verify_result-IsFunded, accept_handoff-IsFunded,
}

module _ ⦃json : Json⦄ ⦃sha : Sha256⦄ where
  -- One call, its answer left aside; the parent ends at any time.
  pub data Step : CoordinationStore → CoordinationStore → Type 0 where
    accepting :
        (c : HandoffCandidate) (facts : CurrentCoordinationFacts) (now : ℕ) (s : CoordinationStore)
        → Step s (accept_handoff c facts now s).1
    publishing :
        (id : String) (time : ℕ) (s : CoordinationStore)
        → Step s (mark_outbox_published id time s).1
    claiming :
        (id worker : String) (now duration : ℕ) (s : CoordinationStore)
        → Step s (claim_handoff id worker now duration s).1
    taking_over :
        (id worker : String) (now duration : ℕ) (s : CoordinationStore)
        → Step s (take_over_lease id worker now duration s).1
    dispatching :
        (id : String) (q : DispatchRequest) (operation : String) (s : CoordinationStore)
        → Step s (record_provider_dispatch id q operation s).1
    losing :
        (id operation : String) (s : CoordinationStore)
        → Step s (mark_outcome_unknown id operation s).1
    cancelling : (id : String) (s : CoordinationStore) → Step s (cancel_handoff id s).1
    verifying :
        (c : ChildResultCandidate) (versions : List SourceVersion) (s : CoordinationStore)
        → Step s (verify_result c versions s).1
    ending : (ended : Bool) (s : CoordinationStore) → Step s (record s { parent_terminal = ended })

  pub data Reaches (s : CoordinationStore) : CoordinationStore → Type 0 where
    here : Reaches s s
    next : {t u : CoordinationStore} → Reaches s t → Step t u → Reaches s u

  Step-Follows : {s t : CoordinationStore} → Step s t → AllOwned s → Follows s t
  Step-Follows (accepting c facts now s) o = accept_handoff-Follows c facts now s o
  Step-Follows (publishing id time s) o = mark_outbox_published-Follows id time s o
  Step-Follows (claiming id w now d s) o = claim_handoff-Follows id w now d s o
  Step-Follows (taking_over id w now d s) o = take_over-Follows id w now d s o
  Step-Follows (dispatching id q op s) o = record_provider_dispatch-Follows id q op s o
  Step-Follows (losing id op s) o = mark_outcome_unknown-Follows id op s o
  Step-Follows (cancelling id s) o = cancel_handoff-Follows id s o
  Step-Follows (verifying c versions s) o = verify_result-Follows c versions s o
  Step-Follows (ending ended s) o = evidence-Follows s _ o refl

  pub Reaches-Follows : {s t : CoordinationStore} → Reaches s t → AllOwned s → Follows s t
  Reaches-Follows {s} here o = Follows-refl s o
  Reaches-Follows {s} (next {t} {u} r st) o =
      let first = Reaches-Follows r o in
      Follows-trans s t u first (Step-Follows st (Follows-owned s t first))

  ended-IsFunded :
      (ended : Bool) (s : CoordinationStore)
      → IsFunded s
      → IsFunded (record s { parent_terminal = ended })
  unfolding IsFunded
  ended-IsFunded ended s f = f

  Step-IsFunded : {s t : CoordinationStore} → Step s t → IsFunded s → IsFunded t
  Step-IsFunded (accepting c facts now s) f = accept_handoff-IsFunded c facts now s f
  Step-IsFunded (publishing id time s) f = mark_outbox_published-IsFunded id time s f
  Step-IsFunded (claiming id w now d s) f = claim_handoff-IsFunded id w now d s f
  Step-IsFunded (taking_over id w now d s) f = take_over-IsFunded id w now d s f
  Step-IsFunded (dispatching id q op s) f = record_provider_dispatch-IsFunded id q op s f
  Step-IsFunded (losing id op s) f = mark_outcome_unknown-IsFunded id op s f
  Step-IsFunded (cancelling id s) f = cancel_handoff-IsFunded id s f
  Step-IsFunded (verifying c versions s) f = verify_result-IsFunded c versions s f
  Step-IsFunded (ending ended s) f = ended-IsFunded ended s f

  pub Reaches-IsFunded : {s t : CoordinationStore} → Reaches s t → IsFunded s → IsFunded t
  Reaches-IsFunded here f = f
  Reaches-IsFunded (next r st) f = Step-IsFunded st (Reaches-IsFunded r f)
