-- ===== src/AgentLoop/Examples.antt =====
-- A step of a job that goes on, is created and is executed.
use ai_backend_engineer_hand.Prelude.{
  lookup, ℕ, ℕ_discrete, nat_eq, ◌==◌, if◌then◌else◌, Bool-cases, inl, inr, ◌≡◌, refl, true, false,
  none, some, [], ◌∷◌, Result, ok, suc, String_discrete, is_ok, string_eq, all_distinct,
  text_digest, str, join, prefixed, first_chars,
}
use ai_backend_engineer_hand.AgentLoop.Types.{
  continue, completed, created, ControlDecision-discrete, RuntimeResult, AgentStepInput,
  NextStepRequest, AgentStepResult, check_step_result, decision_value,
}
use ai_backend_engineer_hand.AgentLoop.Decide.{
  stable_id, decision_id_of, next_step_of, step_result_of, result, decide_control,
}
use ai_backend_engineer_hand.AgentLoop.Store.{
  ControlStore, next_step_for, apply_continue, write_overlapped, apply_overlapped,
}
use ai_backend_engineer_hand.AgentLoop.Decisions.{decide_control-total}
use ai_backend_engineer_hand.AgentLoop.Delivery.{Creates}
use ai_backend_engineer_hand.AgentLoop.Overlaps.{
  here, apply_continue-Accesses, Interferes, OverlappedCall, AllInterfere, created_overlapped,
  created_overlapped-distinct,
}

-- A step that needs two observations and has one; the runtime has completed.
abbrev step : AgentStepInput
step = record {
  tenant_id = "tenant";
  job_id = "job";
  current_step_id = "step-1";
  runtime_attempt_id = "attempt-1";
  goal_required_observations = 2;
  verified_observation_ids = "observation-1" ∷ [];
  job_is_terminal = false;
  runtime_result = some (record { job_id = "job"; attempt_id = "attempt-1"; status = completed });
  pending_reconciliation_identity = none;
  waiting_for = none;
  model_proposal = none;
}

abbrev going_on : AgentStepResult
unfolding step_result_of decision_id_of next_step_of stable_id str join prefixed first_chars
    decision_value ControlDecision-discrete
going_on = step_result_of step continue "goal_not_yet_satisfied"

going_on_returned : decide_control step ≡ ok going_on
unfolding decide_control result check_step_result step_result_of decision_id_of next_step_of
    stable_id str join prefixed first_chars decision_value String_discrete ControlDecision-discrete
going_on_returned = refl

abbrev store : ControlStore
store = record {
  state = record {
    tenant_id = "tenant";
    job_id = "job";
    current_step_id = "step-1";
    is_terminal = false;
  };
  next_steps = [];
}

decide_control-total_example : is_ok (decide_control step) ≡ true
decide_control-total_example = decide_control-total step

abbrev next_step : NextStepRequest
unfolding next_step_of stable_id str join prefixed first_chars
next_step = next_step_of step going_on.control_decision_id

Creates-next_step : Creates going_on store next_step
unfolding next_step going_on step_result_of next_step_for lookup String_discrete
    ControlDecision-discrete
Creates-next_step = record {
  same_tenant = refl;
  same_job = refl;
  goes_on = refl;
  live = refl;
  fresh = refl;
  current = refl;
  proposed = refl;
}

-- A runtime that counts its calls.
abbrev execute_step : NextStepRequest → ℕ → Result RuntimeResult × ℕ
execute_step next calls = (
  ok (record { job_id = next.job_id; attempt_id = next.runtime_attempt_id; status = completed }),
  suc calls,
)

-- Another thread makes the same call right before the first write of this one.
abbrev rival : ℕ → ControlStore → ControlStore
rival n c = if n == 4 then (apply_continue going_on c).1 else c

rival-Interferes : Interferes rival
unfolding Interferes
rival-Interferes n c = elim (Bool-cases (n == 4)) [
  | inl e ↦ rw e (apply_continue-Accesses going_on c)
  | inr e ↦ rw e here
]

abbrev rivalled : OverlappedCall
rivalled = record { others = rival; result = going_on }

rivalled-AllInterfere : AllInterfere (rivalled ∷ rivalled ∷ [])
unfolding AllInterfere
rivalled-AllInterfere = (rival-Interferes, (rival-Interferes, tt))

created_overlapped-distinct_example :
    all_distinct (created_overlapped (rivalled ∷ rivalled ∷ []) store) ≡ true
created_overlapped-distinct_example =
    created_overlapped-distinct (rivalled ∷ rivalled ∷ []) store rivalled-AllInterfere

-- Both of the overlapping calls answer that they created the step of the one decision.
both_created :
    ((apply_continue going_on store).0 ≡ ok created)
    × ((apply_overlapped rival going_on store).0 ≡ ok created)
unfolding apply_continue apply_overlapped write_overlapped going_on step_result_of decision_id_of
    next_step_of stable_id str join prefixed first_chars decision_value String_discrete
    ControlDecision-discrete ℕ_discrete lookup
both_created = (refl, refl)
