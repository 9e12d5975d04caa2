-- ===== src/HumanControl/Guarantees.antt =====
-- What no history of applied candidates and dispatches undoes
-- (projects/ai-agent/src/human_control.py).
use ai_backend_engineer_hand.Prelude.{
  ℕ, String, ◌≡◌, refl, ◌≢◌, ◌⊎◌, inl, inr, Bool-cases, Bool, true, false, some, ◌==◌, string_eq,
  lookup, lookup-insert, lookup-insert_self, if◌then◌else◌, Result, ok, raised, Sha256, arith, List,
  ◌∷◌,
}
use ai_backend_engineer_hand.DurableJobs.Records.{DurableCheckpoint}
use ai_backend_engineer_hand.HumanControl.Types.{
  Principal, ActionBinding, ApprovalDecision, CurrentFacts, Command, Snapshot,
  HumanControlCandidate, Fingerprints,
}
use ai_backend_engineer_hand.HumanControl.Equality.{command_eq, control_candidate_eq}
use ai_backend_engineer_hand.HumanControl.Guards.{is_present, refused_first, control_result}
use ai_backend_engineer_hand.HumanControl.Decide.{decide_human_control}
use ai_backend_engineer_hand.HumanControl.Store.{
  HumanControlStore, ControlReply, duplicate_command, command_identity_conflict, audit_only,
  control_applied, is_interrupting, is_fresh, audited, decisions_after,
}
use ai_backend_engineer_hand.HumanControl.Apply.{controlled, apply_control}
use ai_backend_engineer_hand.HumanControl.Dispatch.{
  refused_claim, dispatch_command, dispatch_checkpoint, claimed_snapshot, send_claimed,
  dispatch_once,
}
use ai_backend_engineer_hand.HumanControl.Executions.{execution_allowed_iff, records_first}
use ai_backend_engineer_hand.HumanControl.Histories.{
  IsBarred, Written, audit, control, apply_control-Written,
}

module _ ⦃prints : Fingerprints⦄ ⦃sha : Sha256⦄ where
  -- A candidate that interrupts was decided for a command with an identity.
  fresh-names :
      (c : HumanControlCandidate) (s : Snapshot) (facts : CurrentFacts) (now : ℕ)
      → is_fresh c facts now s ≡ true
      → is_interrupting c.status ≡ true
      → is_present (some c.command.command_id) ≡ true
  unfolding is_fresh decide_human_control refused_first is_interrupting control_result
  fresh-names c s facts now f i = ground arith

  Written-IsBarred :
      (c : HumanControlCandidate) (s t : Snapshot) (facts : CurrentFacts) (now : ℕ)
      (reply : ControlReply)
      → is_fresh c facts now s ≡ true
      → Written c s t reply
      → IsBarred s
      → IsBarred t
  unfolding IsBarred audited controlled
  Written-IsBarred c s _ facts now _ f audit b = b
  Written-IsBarred c s t facts now _ f (control job w) b =
      ground (arith, fresh-names c s facts now f)

  -- An applied interrupt bars the job.
  Written-interrupts :
      (c : HumanControlCandidate) (s t : Snapshot) (facts : CurrentFacts) (now : ℕ)
      (reply : ControlReply)
      → is_fresh c facts now s ≡ true
      → Written c s t reply
      → reply ≡ control_applied
      → is_interrupting c.status ≡ true
      → IsBarred t
  unfolding IsBarred controlled
  Written-interrupts c s _ facts now _ f audit e i = ground arith
  Written-interrupts c s t facts now _ f (control job w) e i =
      inr (ground (arith, fresh-names c s facts now f i))

  module _ {World : Type 0} (effect : ActionBinding → World → Result (Unit {0}) × World) where
    -- An application of any candidate, or a dispatch of any event.
    pub data Step : HumanControlStore → HumanControlStore → Type 0 where
      command :
          (c : HumanControlCandidate) (facts : CurrentFacts) (now : ℕ) (fail : Bool)
          (store : HumanControlStore)
          → Step store (apply_control c facts now fail store).1
      dispatch :
          (event_id : String) (worker : Principal) (fence : ℕ) (facts : CurrentFacts) (now : ℕ)
          (store : HumanControlStore) (world : World)
          → Step store (dispatch_once effect event_id worker fence facts now store world).1

    pub data Reaches (store : HumanControlStore) : HumanControlStore → Type 0 where
      here : Reaches store store
      next : {t u : HumanControlStore} → Reaches store t → Step t u → Reaches store u

    -- A dispatch either changes nothing and claims no success, or claims a job that was free.
    DispatchEffect : HumanControlStore → Result Bool → HumanControlStore → World → World → Type 0
    DispatchEffect store answer after world world' =
        ((answer ≢ ok true) × (after ≡ store) × (world' ≡ world))
        ⊎ ((after.snapshot.dispatch_started ≡ true)
            × (after.commands ≡ store.commands)
            × (after.snapshot.decisions ≡ store.snapshot.decisions)
            × (after.snapshot.interrupt_id ≡ store.snapshot.interrupt_id))

    send_claimed-effect :
        (checkpoint : Result DurableCheckpoint) (event_id : String) (store : HumanControlStore)
        (world : World)
        → let (answer, after, world') = send_claimed effect checkpoint event_id store world in
          DispatchEffect store answer after world world'
    unfolding send_claimed claimed_snapshot DispatchEffect
    send_claimed-effect (raised e) event_id store world = inl (ground arith, refl, refl)
    send_claimed-effect (ok checkpoint) event_id store world = inr (refl, refl, refl, refl)

    dispatch_once-effect :
        (event_id : String) (worker : Principal) (fence : ℕ) (facts : CurrentFacts) (now : ℕ)
        (store : HumanControlStore) (world : World)
        → let (answer, after, world') =
            dispatch_once effect event_id worker fence facts now store world in
          DispatchEffect store answer after world world'
    unfolding dispatch_once DispatchEffect
    dispatch_once-effect event_id worker fence facts now store world =
        let s = store.snapshot in
        let check = decide_human_control s (dispatch_command event_id worker fence s) facts now in
        elim (Bool-cases (refused_claim event_id worker fence now s)) [
          | inl r ↦ rw r (inl (ground arith, refl, refl))
          | inr r ↦ rw r (elim (Bool-cases check.execution_allowed) [
            | inr x ↦ rw x (inl (ground arith, refl, refl))
            | inl x ↦
                rw x (send_claimed-effect (dispatch_checkpoint event_id s) event_id store world)
          ])
        ]

    -- Of a barred job nothing is dispatched.
    IsBarred-dispatch :
        (event_id : String) (worker : Principal) (fence : ℕ) (facts : CurrentFacts) (now : ℕ)
        (store : HumanControlStore) (world : World)
        → IsBarred store.snapshot
        → dispatch_once effect event_id worker fence facts now store world
          ≡ (ok false, store, world)
    unfolding dispatch_once IsBarred
    IsBarred-dispatch event_id worker fence facts now store world b =
        let s = store.snapshot in
        let command = dispatch_command event_id worker fence s in
        let check = decide_human_control s command facts now in
        elim (Bool-cases (refused_claim event_id worker fence now s)) [
          | inl r ↦ rw r
          | inr r ↦ rw r (elim (Bool-cases check.execution_allowed) [
            | inr x ↦ rw x
            | inl x ↦ absurd (
                let may = (execution_allowed_iff s command facts now).0 x in
                elim b [
                  | inl started ↦ ground (arith, may.cleared.unclaimed)
                  | inr given ↦ ground (arith, may.unblocked.uninterrupted)
                ])
          ])
        ]

    Step-IsBarred :
        {store after : HumanControlStore}
        → Step store after
        → IsBarred store.snapshot
        → IsBarred after.snapshot
    unfolding IsBarred DispatchEffect
    Step-IsBarred (dispatch event_id worker fence facts now store world) b =
        ground (arith, dispatch_once-effect event_id worker fence facts now store world)
    Step-IsBarred (command c facts now fail store) b =
        let (answer, after) = apply_control c facts now fail store in
        elim (apply_control-Written c facts now fail store) [
          | inr (same, n) ↦ ground arith
          | inl w ↦
              Written-IsBarred c store.snapshot after.snapshot facts now w.answer w.fresh w.written
                b
        ]

    Reaches-IsBarred :
        {store after : HumanControlStore}
        → Reaches store after
        → IsBarred store.snapshot
        → IsBarred after.snapshot
    Reaches-IsBarred here b = b
    Reaches-IsBarred (next r step) b = Step-IsBarred step (Reaches-IsBarred r b)

    -- At most one effect for a job: once a dispatch reports success, or its effect has changed the
    -- world, then after every history of applied candidates and dispatches no dispatch of any
    -- event, by any worker, under any fence and facts, calls the effect, and it changes nothing.
    pub dispatch_once-last :
        (event_id later : String) (worker other : Principal) (fence fence' : ℕ)
        (facts facts' : CurrentFacts) (now now' : ℕ) (store end : HumanControlStore)
        (world world' : World)
        → ((dispatch_once effect event_id worker fence facts now store world).0 ≡ ok true)
          ⊎ ((dispatch_once effect event_id worker fence facts now store world).2 ≢ world)
        → Reaches (dispatch_once effect event_id worker fence facts now store world).1 end
        → dispatch_once effect later other fence' facts' now' end world' ≡ (ok false, end, world')
    unfolding DispatchEffect IsBarred
    dispatch_once-last event_id later worker other fence fence' facts facts' now now' store end
          world world' h r =
        elim (dispatch_once-effect event_id worker fence facts now store world) [
          | inl (n, same, still) ↦ absurd (elim h [ inl e ↦ n e | inr m ↦ m still ])
          | inr (started, rest, more, kept) ↦
              IsBarred-dispatch later other fence' facts' now' end world'
                (Reaches-IsBarred r (inl started))
        ]

    -- Once an interrupt is applied, then after every history of applied candidates and dispatches
    -- no dispatch of any event calls the effect or changes anything.
    pub interrupted-never_dispatches :
        (c : HumanControlCandidate) (facts facts' : CurrentFacts) (now now' : ℕ) (fail : Bool)
        (store end : HumanControlStore) (event_id : String) (worker : Principal) (fence : ℕ)
        (world : World)
        → (apply_control c facts now fail store).0 ≡ ok control_applied
        → is_interrupting c.status ≡ true
        → Reaches (apply_control c facts now fail store).1 end
        → dispatch_once effect event_id worker fence facts' now' end world ≡ (ok false, end, world)
    interrupted-never_dispatches c facts facts' now now' fail store end event_id worker fence world
          h i r =
        elim (apply_control-Written c facts now fail store) [
          | inr (same, (n, m)) ↦ absurd (n h)
          | inl w ↦ IsBarred-dispatch event_id worker fence facts' now' end world (
              Reaches-IsBarred r (
                Written-interrupts c store.snapshot _ facts now w.answer w.fresh w.written
                  (ground (arith, w.answered)) i))
        ]

    Step-commands :
        {store after : HumanControlStore} (id : String) (known : Command)
        → Step store after
        → lookup id store.commands ≡ some known
        → lookup id after.commands ≡ some known
    unfolding DispatchEffect
    Step-commands id known (dispatch event_id worker fence facts now store world) h =
        ground (arith, dispatch_once-effect event_id worker fence facts now store world)
    Step-commands id known (command c facts now fail store) h =
        elim (apply_control-Written c facts now fail store) [
          | inr (same, n) ↦ ground arith
          | inl w ↦ ground (
            arith,
            w.recorded,
            w.unseen,
            lookup-insert c.command.command_id id c.command store.commands,
          )
        ]

    Reaches-commands :
        {store after : HumanControlStore} (id : String) (known : Command)
        → Reaches store after
        → lookup id store.commands ≡ some known
        → lookup id after.commands ≡ some known
    Reaches-commands id known here h = h
    Reaches-commands id known (next r step) h =
        Step-commands id known step (Reaches-commands id known r h)

    -- Once a command is applied or audited, then after every history any candidate whose command
    -- has its identity changes nothing: it is a duplicate if the command is the same, and an
    -- identity conflict otherwise.
    pub command-applies_once :
        (c again : HumanControlCandidate) (facts facts' : CurrentFacts) (now now' : ℕ)
        (fail fail' : Bool) (store end : HumanControlStore)
        → ((apply_control c facts now fail store).0 ≡ ok control_applied)
          ⊎ ((apply_control c facts now fail store).0 ≡ ok audit_only)
        → Reaches (apply_control c facts now fail store).1 end
        → again.command.command_id ≡ c.command.command_id
        → apply_control again facts' now' fail' end ≡ (
          ok (if c.command == again.command then duplicate_command else command_identity_conflict),
          end,
        )
    unfolding apply_control
    command-applies_once c again facts facts' now now' fail fail' store end h r same =
        elim (apply_control-Written c facts now fail store) [
          | inr (unchanged, (n, m)) ↦ absurd (elim h [ inl e ↦ n e | inr e ↦ m e ])
          | inl w ↦
              let id = c.command.command_id in
              let kept : lookup id end.commands ≡ some c.command =
                Reaches-commands id c.command r
                  (ground (arith, w.recorded, lookup-insert_self id c.command store.commands)) in
              elim (Bool-cases (c.command == again.command)) [
                | inl b ↦ ground arith
                | inr b ↦ ground arith
              ]
        ]

    Written-decisions :
        (c : HumanControlCandidate) (s t : Snapshot) (facts : CurrentFacts) (now : ℕ)
        (reply : ControlReply) (d : ApprovalDecision) (rest : List ApprovalDecision)
        → is_fresh c facts now s ≡ true
        → Written c s t reply
        → s.decisions ≡ d ∷ rest
        → t.decisions ≡ d ∷ rest
    unfolding controlled decisions_after is_fresh audited
    Written-decisions c s _ facts now _ d rest f audit e = e
    Written-decisions c s t facts now _ d rest f (control job w) e =
        ground (arith, records_first s c.command facts now)

    -- Once a decision is recorded, the recorded decisions are the same after every history of
    -- applied candidates and dispatches.
    pub first_decision-final :
        (store end : HumanControlStore) (d : ApprovalDecision) (rest : List ApprovalDecision)
        → store.snapshot.decisions ≡ d ∷ rest
        → Reaches store end
        → end.snapshot.decisions ≡ d ∷ rest
    unfolding DispatchEffect
    first_decision-final store _ d rest e here = e
    first_decision-final store _ d rest e
          (next r (dispatch event_id worker fence facts now t world)) =
        let kept = first_decision-final store t d rest e r in
        ground (arith, dispatch_once-effect event_id worker fence facts now t world)
    first_decision-final store _ d rest e (next r (command c facts now fail t)) =
        let kept = first_decision-final store t d rest e r in
        elim (apply_control-Written c facts now fail t) [
          | inr (same, n) ↦ ground arith
          | inl w ↦
              Written-decisions c t.snapshot _ facts now w.answer d rest w.fresh w.written kept
        ]
