-- ===== src/AgentStateMachine/EndToEnd.antt =====
-- `decide_transition` and the store's `apply` together: what happens to a candidate that was
-- computed from the store's own snapshot.
use ai_backend_engineer_hand.Prelude.{
  ◌+◌, ◌≡◌, true, false, Option-cases, inl, inr, ok, contains, arith, Sha256, is_some,
}
use mathlib.Core.Path.{subst}
use ai_backend_engineer_hand.AgentLoop.Types as Loop
use ai_backend_engineer_hand.AgentLoop.Types.{AgentStepResult, check_step_result}
use ai_backend_engineer_hand.AgentStateMachine.Types.{
  is_terminal, continue, TransitionAction-discrete, applied,
}
use ai_backend_engineer_hand.AgentStateMachine.Decide.{
  AgentTransitionInput, TransitionDecision, decide_transition,
}
use ai_backend_engineer_hand.AgentStateMachine.Store.{AgentStateStore, reserve, apply}
use ai_backend_engineer_hand.AgentStateMachine.Candidates.{
  MayAdvance, decide_transition_facts, decide_transition-continue_iff, decide_transition-terminal,
}
use ai_backend_engineer_hand.AgentStateMachine.Transitions.{
  Fits, IsCurrent, apply-budget, apply-continue, apply-settle,
}

-- An input that was read from the store as it is.
pub record IsSnapshot (i : AgentTransitionInput) (s : AgentStateStore) : Type 0 where
  pub tenant_id : i.tenant_id ≡ s.current.tenant_id
  pub job_id : i.job_id ≡ s.current.job_id
  pub step_id : i.step_id ≡ s.current.current_step_id
  pub state : i.state ≡ s.current.state
  pub fence_token : i.fence_token ≡ s.current.fence_token
  pub budget : i.budget ≡ s.current.budget

module _ ⦃sha : Sha256⦄ where
  candidate-IsCurrent :
      (i : AgentTransitionInput) (d : TransitionDecision) (s : AgentStateStore)
      → decide_transition i ≡ ok d
      → IsSnapshot i s
      → is_terminal i.state ≡ false
      → contains d.transition_id s.applied_decisions ≡ false
      → IsCurrent d s
  candidate-IsCurrent i d s h snap live fresh = ground (arith, decide_transition_facts i d h)

  candidate-Fits :
      (i : AgentTransitionInput) (d : TransitionDecision)
      → decide_transition i ≡ ok d
      → d.action ≡ continue
      → Fits d i.budget
  candidate-Fits i d h a =
      ground (arith, (decide_transition-continue_iff i d h).0 a, decide_transition_facts i d h)

  -- A Day79 result that passed its checks carries a next step when it goes on.
  next_step_given :
      (r : AgentStepResult)
      → check_step_result r ≡ ok r
      → r.decision ≡ Loop.continue
      → is_some r.next_step ≡ true
  unfolding check_step_result
  next_step_given r h e = ground arith

  -- A candidate that is decided from the store's own snapshot of a live agent and a loop result
  -- that passed its checks, and whose identity no applied decision has, is applied.
  pub candidate_is_applied :
      (i : AgentTransitionInput) (d : TransitionDecision) (s : AgentStateStore)
      → check_step_result i.day79_result ≡ ok i.day79_result
      → decide_transition i ≡ ok d
      → IsSnapshot i s
      → is_terminal i.state ≡ false
      → contains d.transition_id s.applied_decisions ≡ false
      → (apply d s).0 ≡ ok applied
  candidate_is_applied i d s v h snap live fresh =
      elim (TransitionAction-discrete d.action continue) [
        | no other ↦
            apply-settle d s (candidate-IsCurrent i d s h snap live fresh) other
              (ground (arith, decide_transition-terminal i d h))
        | yes go ↦ elim (Option-cases d.next_step) [
          | inl e ↦ absurd (
              ground (
                arith,
                decide_transition_facts i d h,
                (decide_transition-continue_iff i d h).0 go,
                next_step_given i.day79_result v,
              ))
          | inr (next, e) ↦
              apply-continue d s next (candidate-IsCurrent i d s h snap live fresh) go e
                (subst (λ b. Fits d b) snap.budget (candidate-Fits i d h go))
        ]
      ]

  -- After a candidate that is decided from the store's own snapshot, from a loop result that passed
  -- its checks and with every guard passed, and whose identity no applied decision has, one more
  -- step is used, exactly the requested reservations are held on top of those of before, and what
  -- was settled is as before.
  candidate_is_charged :
      (i : AgentTransitionInput) (d : TransitionDecision) (s : AgentStateStore)
      → check_step_result i.day79_result ≡ ok i.day79_result
      → decide_transition i ≡ ok d
      → IsSnapshot i s
      → MayAdvance i
      → contains d.transition_id s.applied_decisions ≡ false
      → let b = s.current.budget in
        let b' = (apply d s).1.current.budget in
        (b'.steps_used ≡ b.steps_used + 1)
        × (b'.held_token_reservations ≡ b.held_token_reservations + i.requested_token_reservation)
        × (b'.held_cost_reservations ≡ b.held_cost_reservations + i.requested_cost_reservation)
        × (b'.settled_tokens ≡ b.settled_tokens)
        × (b'.settled_cost ≡ b.settled_cost)
  unfolding reserve
  candidate_is_charged i d s v h snap may fresh =
      let go = (decide_transition-continue_iff i d h).1 may in
      ground (
        arith,
        go,
        decide_transition_facts i d h,
        apply-budget d s (candidate_is_applied i d s v h snap may.live fresh),
      )
