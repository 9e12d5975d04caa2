-- ===== src/HumanControl/Histories.antt =====
-- What every history of applied candidates and dispatches keeps
-- (projects/ai-agent/src/human_control.py).
use ai_backend_engineer_hand.Prelude.{
  ℕ, ◌≡◌, refl, ◌≢◌, ◌⊎◌, inl, inr, Bool-cases, Bool, true, false, none, ◌==◌, string_eq, lookup,
  insert, Result, ok, Option-cases, Result-cases, Sha256, arith,
}
use ai_backend_engineer_hand.DurableJobs.Records.{DurableAgentJobRecord}
use ai_backend_engineer_hand.HumanControl.Types.{
  CurrentFacts, Snapshot, HumanControlCandidate, Fingerprints,
}
use ai_backend_engineer_hand.HumanControl.Equality.{command_eq, control_candidate_eq}
use ai_backend_engineer_hand.HumanControl.Guards.{is_present}
use ai_backend_engineer_hand.HumanControl.Store.{
  HumanControlStore, ControlReply, audit_only, control_applied, turned_down, moved, is_transition,
  is_fresh, audited,
}
use ai_backend_engineer_hand.HumanControl.Apply.{
  injected, transition, transition_from, human_checkpoint, reservations_after, next_fence,
  controlled, controlled_job, staged_recovery, swapped, apply_fresh, apply_control,
}

-- Nothing can be dispatched any more: a dispatch has started, or it is interrupted.
unfoldable pub IsBarred : Snapshot → Type 0
IsBarred s = (s.dispatch_started ≡ true) ⊎ (is_present s.interrupt_id ≡ true)

module _ ⦃prints : Fingerprints⦄ ⦃sha : Sha256⦄ where
  transition_from-moved :
      (c : HumanControlCandidate) (s t : Snapshot) (facts : CurrentFacts)
      (next : DurableAgentJobRecord)
      → transition_from c s facts next ≡ ok (moved t)
      → (job : DurableAgentJobRecord) × (t ≡ controlled c s job)
  unfolding transition_from
  transition_from-moved c s t facts next h =
      elim (Result-cases (reservations_after c s next.reservations)) [
        | inr (e, q) ↦ ground arith
        | inl (rs, q) ↦ elim (Result-cases (human_checkpoint c s next (next_fence c s next))) [
          | inr (e, r) ↦ ground arith
          | inl (checkpoint, r) ↦ (controlled_job c s next rs checkpoint, ground arith)
        ]
      ]

  transition-moved :
      (c : HumanControlCandidate) (s t : Snapshot) (facts : CurrentFacts)
      → transition c s facts ≡ ok (moved t)
      → (job : DurableAgentJobRecord) × (t ≡ controlled c s job)
  unfolding transition
  transition-moved c s t facts h = elim (Result-cases (staged_recovery c s facts)) [
    | inr (e, q) ↦ ground arith
    | inl (answer, q) ↦ elim (Option-cases answer) [
      | inl e ↦ ground arith
      | inr (next, e) ↦ transition_from-moved c s t facts next (ground arith)
    ]
  ]

  -- What `apply` may write: the audit of a candidate, or its transition, and its command.
  pub data Written (c : HumanControlCandidate) (s : Snapshot)
      : Snapshot → ControlReply → Type 0 where
    audit : Written c s (audited c s) audit_only
    control :
        {t : Snapshot} (job : DurableAgentJobRecord)
        → t ≡ controlled c s job
        → Written c s t control_applied

  -- An application either leaves the store, with a reply that is not one of success, or writes.
  pub record HasWritten (c : HumanControlCandidate) (facts : CurrentFacts) (now : ℕ)
      (store : HumanControlStore) (reply : Result ControlReply) (after : HumanControlStore)
      : Type 0 where
    pub answer : ControlReply
    pub answered : reply ≡ ok answer
    pub written : Written c store.snapshot after.snapshot answer
    pub recorded : after.commands ≡ insert c.command.command_id c.command store.commands
    pub unseen : lookup c.command.command_id store.commands ≡ none
    pub fresh : is_fresh c facts now store.snapshot ≡ true

  abbrev pub Unwritten : HumanControlStore → Result ControlReply → HumanControlStore → Type 0
  Unwritten store reply after =
      (after ≡ store) × ((reply ≢ ok control_applied) × (reply ≢ ok audit_only))

  transition-turned_down :
      (c : HumanControlCandidate) (s : Snapshot) (facts : CurrentFacts) (reply : ControlReply)
      → transition c s facts ≡ ok (turned_down reply)
      → (reply ≢ control_applied) × (reply ≢ audit_only)
  unfolding transition transition_from
  transition-turned_down c s facts reply h = elim (Result-cases (staged_recovery c s facts)) [
    | inr (e, q) ↦ ground arith
    | inl (answer, q) ↦ elim (Option-cases answer) [
      | inl e ↦ ground arith
      | inr (next, e) ↦ elim (Result-cases (reservations_after c s next.reservations)) [
        | inr (x, r) ↦ ground arith
        | inl (rs, r) ↦ elim (Result-cases (human_checkpoint c s next (next_fence c s next))) [
          | inr (x, z) ↦ ground arith
          | inl (checkpoint, z) ↦ ground arith
        ]
      ]
    ]
  ]

  swapped-Written :
      (t : Snapshot) (reply : ControlReply) (c : HumanControlCandidate) (facts : CurrentFacts)
      (now : ℕ) (fail : Bool) (store : HumanControlStore)
      → Written c store.snapshot t reply
      → lookup c.command.command_id store.commands ≡ none
      → is_fresh c facts now store.snapshot ≡ true
      → let (answer, after) = swapped (injected fail t) reply c.command store in
        HasWritten c facts now store answer after ⊎ Unwritten store answer after
  unfolding swapped injected
  swapped-Written t reply c facts now true store w u f = inr (refl, (ground arith, ground arith))
  swapped-Written t reply c facts now false store w u f = inl (record {
    answer = reply;
    answered = refl;
    written = w;
    recorded = refl;
    unseen = u;
    fresh = f;
  })

  apply_fresh-Written :
      (c : HumanControlCandidate) (facts : CurrentFacts) (now : ℕ) (fail : Bool)
      (store : HumanControlStore)
      → lookup c.command.command_id store.commands ≡ none
      → is_fresh c facts now store.snapshot ≡ true
      → let (answer, after) = apply_fresh c facts fail store in
        HasWritten c facts now store answer after ⊎ Unwritten store answer after
  unfolding apply_fresh
  apply_fresh-Written c facts now fail store u f =
      elim (Bool-cases (is_transition c.command.operation c.status)) [
        | inr b ↦
            rw b (
              swapped-Written (audited c store.snapshot) audit_only c facts now fail store audit u
                f)
        | inl b ↦ rw b (elim (Result-cases (transition c store.snapshot facts)) [
          | inr (x, e) ↦ rw e (inr (refl, (ground arith, ground arith)))
          | inl (turned_down reply, e) ↦
              (let (n, m) = transition-turned_down c store.snapshot facts reply e in
                rw e (inr (refl, (ground arith, ground arith))))
          | inl (moved t, e) ↦
              (let (job, w) = transition-moved c store.snapshot t facts e in
                rw e (swapped-Written t control_applied c facts now fail store (control job w) u f))
        ])
      ]

  pub apply_control-Written :
      (c : HumanControlCandidate) (facts : CurrentFacts) (now : ℕ) (fail : Bool)
      (store : HumanControlStore)
      → let (answer, after) = apply_control c facts now fail store in
        HasWritten c facts now store answer after ⊎ Unwritten store answer after
  unfolding apply_control
  apply_control-Written c facts now fail store =
      elim (Option-cases (lookup c.command.command_id store.commands)) [
        | inr (previous, e) ↦
            rw (e, apply_control)
              (elim (Bool-cases (previous == c.command)) [
                | inl b ↦ rw b (inr (refl, (ground arith, ground arith)))
                | inr b ↦ rw b (inr (refl, (ground arith, ground arith)))
              ])
        | inl u ↦
            rw (u, apply_control)
              (elim (Bool-cases (c.snapshot_fingerprint == prints.of_snapshot store.snapshot)) [
                | inr d ↦ rw d (inr (refl, (ground arith, ground arith)))
                | inl d ↦ rw d (elim (Bool-cases (is_fresh c facts now store.snapshot)) [
                  | inr b ↦ rw b (inr (refl, (ground arith, ground arith)))
                  | inl b ↦ rw b (apply_fresh-Written c facts now fail store u b)
                ])
              ])
      ]
