-- ===== src/HumanControl/Dispatch.antt =====
-- `dispatch_once` of `InMemoryHumanControlStore` (projects/ai-agent/src/human_control.py). The
-- effect is called after the lock is released, with the action of the claim; it does not reach the store.
use ai_backend_engineer_hand.Prelude.{
  ℕ, String, ◌+◌, Bool, true, false, not, ◌||◌, ◌&&◌, Option, none, some, List, [], ◌∷◌, ◌++◌,
  Result, ok, raised, ◌>>=◌, ◌==◌, string_eq, nat_eq, option_eq, leb, is_in, prefixed,
  if◌then◌else◌,
}
use ai_backend_engineer_hand.DurableJobs.Types.{external_certainty_eq}
use ai_backend_engineer_hand.DurableJobs.Records.{DurableCheckpoint, check_checkpoint, OutboxIntent}
use ai_backend_engineer_hand.HumanControl.Types.{
  gate, Principal, ActionBinding, CurrentFacts, Command, Snapshot, Fingerprints,
}
use ai_backend_engineer_hand.HumanControl.Equality.{command_eq}
use ai_backend_engineer_hand.HumanControl.Decide.{decide_human_control}
use ai_backend_engineer_hand.HumanControl.Store.{HumanControlStore}

-- `next(e for e in outbox if e.event_id == id and e.event_type == "PUBLISH")` is there.
unfoldable pub has_publication : String → List OutboxIntent → Bool
has_publication id [] = false
has_publication id (e ∷ es) =
    (e.event_id == id && e.event_type == "PUBLISH") || has_publication id es

-- The lease has an end that is still to come.
unfoldable pub has_open_lease : Option ℕ → ℕ → Bool
has_open_lease none now = false
has_open_lease (some expiry) now = not (leb expiry now)

-- The local claim is refused.
unfoldable pub refused_claim : String → Principal → ℕ → ℕ → Snapshot → Bool
refused_claim event_id worker expected_fence now s =
    not (has_publication event_id s.job.outbox_intents)
    || is_in event_id s.claimed_events
    || not (expected_fence == s.job.fence_token)
    || not (s.job.lease_owner == some worker.actor_id)
    || not (has_open_lease s.job.lease_expiry_epoch_ms now)

-- The command that a dispatch checks again.
unfoldable pub dispatch_command : String → Principal → ℕ → Snapshot → Command
dispatch_command event_id worker expected_fence s = record {
  command_id = prefixed "dispatch:" event_id;
  operation = gate;
  actor = worker;
  expected_state = s.job.state;
  expected_state_version = s.job.state_version;
  expected_fence = expected_fence;
  decision = none;
  invalidate_to = none;
  evidence_id = none;
  source_attempt_id = none;
  source_operation_id = none;
  source_fence = none;
}

-- The snapshot after a claim: what may have been sent is marked before it is.
unfoldable pub claimed_snapshot : String → Snapshot → DurableCheckpoint → Snapshot
claimed_snapshot event_id s checkpoint = record s {
  dispatch_started = true;
  claimed_events = s.claimed_events ++ event_id ∷ [];
  checkpoint_history = s.checkpoint_history ++ s.job.current_checkpoint ∷ [];
  job =
      let job = s.job in
      record job {
        state_version = job.state_version + 1;
        current_checkpoint = checkpoint;
        audit_events = job.audit_events ++ "DISPATCH_CLAIMED" ∷ [];
      };
}

unfoldable pub dispatch_checkpoint : String → Snapshot → Result DurableCheckpoint
dispatch_checkpoint event_id s =
    let checkpoint = s.job.current_checkpoint in
    check_checkpoint (record checkpoint {
      checkpoint_id = prefixed "dispatch:" event_id;
      checkpoint_version = checkpoint.checkpoint_version + 1;
      state_version = s.job.state_version + 1;
      previous_checkpoint_id = some checkpoint.checkpoint_id;
    })

module _ ⦃prints : Fingerprints⦄ {World : Type 0}
    (effect : ActionBinding → World → Result (Unit {0}) × World) where
  -- The claim is written, and then the effect is asked for.
  unfoldable pub send_claimed :
      Result DurableCheckpoint
      → String
      → HumanControlStore
      → World
      → Result Bool × HumanControlStore × World
  send_claimed (raised e) event_id store world = (raised e, store, world)
  send_claimed (ok checkpoint) event_id store world =
      let (answer, after) = effect store.snapshot.action world in
      (
        answer >>= (λ done. ok true),
        record store { snapshot = claimed_snapshot event_id store.snapshot checkpoint },
        after,
      )

  unfoldable pub dispatch_once :
      String
      → Principal
      → ℕ
      → CurrentFacts
      → ℕ
      → HumanControlStore
      → World
      → Result Bool × HumanControlStore × World
  dispatch_once event_id worker expected_fence facts now store world =
      let s = store.snapshot in
      let command = dispatch_command event_id worker expected_fence s in
      let check = decide_human_control s command facts now in
      if refused_claim event_id worker expected_fence now s
      then (ok false, store, world)
      else if not check.execution_allowed
      then (ok false, store, world)
      else send_claimed (dispatch_checkpoint event_id s) event_id store world
