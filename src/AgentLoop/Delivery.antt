-- ===== src/AgentLoop/Delivery.antt =====
-- What `InMemoryControlStore` promises: a proposed step is created once by calls that do not
-- overlap, whatever results they bring, and only a created step reaches the runtime.
use ai_backend_engineer_hand.Prelude.{
  String, ◌≡◌, refl, ◌≢◌, inl, inr, true, false, Option-cases, none, some, List, [], ◌∷◌, Result,
  ok, raised, string_eq, contains, lookup-insert, is_in, all_distinct, arith, is_ok,
}
use ai_backend_engineer_hand.AgentLoop.Types.{
  continue, created, RuntimeResult, NextStepRequest, AgentStepResult, check_step_result,
}
use ai_backend_engineer_hand.AgentLoop.Store.{
  ControlStore, apply_continue, next_step_for, orchestrate_next_step,
}

-- A call that does not create a step leaves the store as it was.
pub apply_continue_frame :
    (r : AgentStepResult) (c : ControlStore)
    → (apply_continue r c).0 ≢ ok created
    → (apply_continue r c).1 ≡ c
unfolding apply_continue
apply_continue_frame r c h = ground arith

-- The conditions of a new step: a result of this job that says to go on, from the current step of a
-- live job, under a decision that has no step on record.
pub record Creates (r : AgentStepResult) (c : ControlStore) (next : NextStepRequest) : Type 0 where
  pub same_tenant : r.tenant_id ≡ c.state.tenant_id
  pub same_job : r.job_id ≡ c.state.job_id
  pub goes_on : r.decision ≡ continue
  pub live : c.state.is_terminal ≡ false
  pub fresh : next_step_for r.control_decision_id c ≡ none
  pub current : c.state.current_step_id ≡ r.step_id
  pub proposed : r.next_step ≡ some next

pub apply_continue-created :
    (r : AgentStepResult) (c : ControlStore)
    → (apply_continue r c).0 ≡ ok created
    → (next : NextStepRequest) × Creates r c next
unfolding apply_continue next_step_for
apply_continue-created r c h = ground arith

pub apply_continue-Creates :
    (r : AgentStepResult) (c : ControlStore) (next : NextStepRequest)
    → Creates r c next
    → let (status, c') = apply_continue r c in
      (status ≡ ok created)
      × (c'.state.current_step_id ≡ next.step_id)
      × (next_step_for r.control_decision_id c' ≡ some next)
unfolding apply_continue next_step_for
apply_continue-Creates r c next h =
    ground (arith, lookup-insert r.control_decision_id r.control_decision_id next c.next_steps)

-- The assertion on `next_step` never fails for a result that passed its constructor's checks.
pub apply_continue-no_assertion :
    (r : AgentStepResult) (c : ControlStore)
    → check_step_result r ≡ ok r
    → r.tenant_id ≡ c.state.tenant_id
    → r.job_id ≡ c.state.job_id
    → is_ok (apply_continue r c).0 ≡ true
unfolding apply_continue check_step_result
apply_continue-no_assertion r c h t j = ground arith

-- The decisions for which a sequence of calls creates a step.
created_ids : List AgentStepResult → ControlStore → List String
created_ids [] c = []
created_ids (r ∷ rs) c =
    let (status, c') = apply_continue r c in
    elim status [
      | ok created ↦ r.control_decision_id ∷ created_ids rs c'
      | ok other ↦ created_ids rs c'
      | raised e ↦ created_ids rs c'
    ]

apply_continue-keeps :
    (id : String) (r : AgentStepResult) (c : ControlStore)
    → contains id c.next_steps ≡ true
    → contains id (apply_continue r c).1.next_steps ≡ true
unfolding apply_continue
apply_continue-keeps id r c h = elim (Option-cases r.next_step) [
  | inl e ↦ ground arith
  | inr (next, e) ↦ ground (arith, lookup-insert r.control_decision_id id next c.next_steps)
]

apply_continue-records :
    (r : AgentStepResult) (c : ControlStore)
    → (apply_continue r c).0 ≡ ok created
    → contains r.control_decision_id (apply_continue r c).1.next_steps ≡ true
unfolding apply_continue
apply_continue-records r c h = elim (Option-cases r.next_step) [
  | inl e ↦ ground arith
  | inr (next, e) ↦
      ground (arith, lookup-insert r.control_decision_id r.control_decision_id next c.next_steps)
]

apply_continue-refuses_known :
    (r : AgentStepResult) (c : ControlStore)
    → (apply_continue r c).0 ≡ ok created
    → contains r.control_decision_id c.next_steps ≡ false
unfolding apply_continue
apply_continue-refuses_known r c h = ground arith

created_ids-not_known :
    (id : String) (rs : List AgentStepResult) (c : ControlStore)
    → contains id c.next_steps ≡ true
    → is_in id (created_ids rs c) ≡ false
unfolding created_ids
created_ids-not_known id [] c h = refl
created_ids-not_known id (r ∷ rs) c h = ground (
  arith,
  created_ids-not_known id rs (apply_continue r c).1,
  apply_continue-keeps id r c,
  apply_continue-refuses_known r c,
)

-- Over any sequence of calls that do not overlap, replays and stale results among them, no decision creates two next
-- steps.
created_ids-distinct :
    (rs : List AgentStepResult) (c : ControlStore) → all_distinct (created_ids rs c) ≡ true
unfolding created_ids
created_ids-distinct [] c = refl
created_ids-distinct (r ∷ rs) c = ground (
  arith,
  created_ids-distinct rs (apply_continue r c).1,
  created_ids-not_known r.control_decision_id rs (apply_continue r c).1,
  apply_continue-records r c,
)

-- The runtime is a parameter, of which nothing is assumed.
module _ {W : Type 0} (execute_step : NextStepRequest → W → Result RuntimeResult × W) where
  -- A call that does not create a step changes neither the store nor the runtime's world.
  pub orchestrate_next_step-idle :
      (r : AgentStepResult) (c : ControlStore) (w : W)
      → (apply_continue r c).0 ≢ ok created
      → let (_, c', w') = orchestrate_next_step execute_step r c w in (c' ≡ c) × (w' ≡ w)
  unfolding orchestrate_next_step
  orchestrate_next_step-idle r c w h = ground (arith, apply_continue_frame r c h)

  -- A step that the store creates is on record afterwards, and the runtime's world is the one that
  -- a single execution of it leaves, also if that raises.
  orchestrate_next_step-executes :
      (r : AgentStepResult) (c : ControlStore) (w : W) (next : NextStepRequest)
      → Creates r c next
      → let (_, c', w') = orchestrate_next_step execute_step r c w in
        (next_step_for r.control_decision_id c' ≡ some next) × (w' ≡ (execute_step next w).1)
  unfolding orchestrate_next_step
  orchestrate_next_step-executes r c w next h =
      ground (arith, apply_continue-Creates r c next h, h.proposed)
