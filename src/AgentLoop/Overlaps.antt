-- ===== src/AgentLoop/Overlaps.antt =====
-- Calls of `InMemoryControlStore` (projects/ai-agent/src/agent_loop.py) that overlap, since it takes no
-- lock.
use mathlib.Core.Path.{subst}
use ai_backend_engineer_hand.Prelude.{
  sym, Option, ℕ, String, ◌≡◌, refl, ◌⊎◌, inl, inr, Bool-cases, true, false, Option-cases, none,
  some, List, [], ◌∷◌, ok, raised, string_eq, insert, contains, lookup-insert, is_in, all_distinct,
  arith,
}
use ai_backend_engineer_hand.AgentLoop.Types.{created, NextStepRequest, AgentStepResult}
use ai_backend_engineer_hand.AgentLoop.Store.{
  ControlStore, apply_continue, write_overlapped, apply_overlapped,
}

-- What another call writes in one access.
pub data Access : ControlStore → ControlStore → Type 0 where
  record_step :
      (id : String) (next : NextStepRequest) (c : ControlStore)
      → Access c (record c { next_steps = insert id next c.next_steps })
  move_to :
      (id : String) (c : ControlStore)
      → Access c (record c { state = record (c.state) { current_step_id = id } })
  end_job :
      (c : ControlStore) → Access c (record c { state = record (c.state) { is_terminal = true } })

pub data Accesses (c : ControlStore) : ControlStore → Type 0 where
  here : Accesses c c
  next : {d e : ControlStore} → Accesses c d → Access d e → Accesses c e

-- The others of a call, which only make accesses.
unfoldable pub Interferes : (ℕ → ControlStore → ControlStore) → Type 0
Interferes others = (n : ℕ) (c : ControlStore) → Accesses c (others n c)

-- A call with what others do in the meantime.
pub record OverlappedCall : Type 0 where
  pub others : ℕ → ControlStore → ControlStore
  pub result : AgentStepResult

unfoldable pub AllInterfere : List OverlappedCall → Type 0
AllInterfere [] = Unit
AllInterfere (call ∷ calls) = Interferes call.others × AllInterfere calls

Access-keeps :
    {c d : ControlStore} (id : String)
    → Access c d
    → contains id c.next_steps ≡ true
    → contains id d.next_steps ≡ true
Access-keeps id (record_step key step c) h = ground (arith, lookup-insert key id step c.next_steps)
Access-keeps id (move_to key c) h = h
Access-keeps id (end_job c) h = h

Accesses-keeps :
    {c d : ControlStore} (id : String)
    → Accesses c d
    → contains id c.next_steps ≡ true
    → contains id d.next_steps ≡ true
Accesses-keeps id here h = h
Accesses-keeps id (next a b) h = Access-keeps id b (Accesses-keeps id a h)

-- Without others it is `apply_continue`.
quiet-apply_continue :
    (r : AgentStepResult) (c : ControlStore) → apply_overlapped (λ n d. d) r c ≡ apply_continue r c
unfolding apply_overlapped write_overlapped apply_continue
quiet-apply_continue r c = refl

apply_continue-writes :
    (r : AgentStepResult) (c : ControlStore) (step : NextStepRequest)
    → r.next_step ≡ some step
    → ((apply_continue r c).1 ≡ c)
      ⊎ ((apply_continue r c).1 ≡ record {
        state = record (c.state) { current_step_id = step.step_id };
        next_steps = insert r.control_decision_id step c.next_steps;
      })
unfolding apply_continue
apply_continue-writes r c step e = ground arith

apply_continue-idle :
    (r : AgentStepResult) (c : ControlStore) → r.next_step ≡ none → (apply_continue r c).1 ≡ c
unfolding apply_continue
apply_continue-idle r c e = ground arith

-- A whole other call is two accesses or none.
pub apply_continue-Accesses :
    (r : AgentStepResult) (c : ControlStore) → Accesses c (apply_continue r c).1
apply_continue-Accesses r c = elim (Option-cases r.next_step) [
  | inl e ↦ subst (Accesses c) (sym (apply_continue-idle r c e)) here
  | inr (step, e) ↦ elim (apply_continue-writes r c step e) [
    | inl same ↦ subst (Accesses c) (sym same) here
    | inr written ↦
        subst (Accesses c) (sym written)
          (next (next here (record_step r.control_decision_id step c)) (move_to step.step_id _))
  ]
]

-- The decisions for which a thread's calls, one after another, create a step.
pub created_overlapped : List OverlappedCall → ControlStore → List String
created_overlapped [] c = []
created_overlapped (call ∷ calls) c =
    let (status, after) = apply_overlapped call.others call.result c in
    elim status [
      | ok created ↦ call.result.control_decision_id ∷ created_overlapped calls after
      | ok other ↦ created_overlapped calls after
      | raised e ↦ created_overlapped calls after
    ]

module _ (others : ℕ → ControlStore → ControlStore) (interferes : Interferes others) where
  others-keep :
      (n : ℕ) (c : ControlStore) (id : String)
      → contains id c.next_steps ≡ true
      → contains id (others n c).next_steps ≡ true
  unfolding Interferes
  others-keep n c id h = Accesses-keeps id (interferes n c) h

  write_overlapped-keeps :
      (proposed : Option NextStepRequest) (r : AgentStepResult) (c : ControlStore) (id : String)
      → contains id c.next_steps ≡ true
      → contains id (write_overlapped others proposed r c).1.next_steps ≡ true
  unfolding write_overlapped
  write_overlapped-keeps none r c id h = h
  write_overlapped-keeps (some step) r c id h =
      let before = others 4 c in
      others-keep 5 _ id (
        ground (
          arith,
          others-keep 4 c id h,
          lookup-insert r.control_decision_id id step before.next_steps,
        ))

  write_overlapped-records :
      (proposed : Option NextStepRequest) (r : AgentStepResult) (c : ControlStore)
      → (write_overlapped others proposed r c).0 ≡ ok created
      → contains r.control_decision_id (write_overlapped others proposed r c).1.next_steps ≡ true
  unfolding write_overlapped
  write_overlapped-records none r c h = cc
  write_overlapped-records (some step) r c h =
      let id = r.control_decision_id in
      others-keep 5 _ id (ground (arith, lookup-insert id id step (others 4 c).next_steps))

  -- What is known stays known, what is created is known afterwards, and it was not known before.
  apply_overlapped_facts :
      (r : AgentStepResult) (c : ControlStore)
      → let (status, after) = apply_overlapped others r c in
        ((id : String) → contains id c.next_steps ≡ true → contains id after.next_steps ≡ true)
        × (status ≡ ok created → contains r.control_decision_id after.next_steps ≡ true)
        × (status ≡ ok created → contains r.control_decision_id c.next_steps ≡ false)
  unfolding apply_overlapped
  apply_overlapped_facts r c =
      let c₁ = others 1 c in
      let c₂ = others 2 c₁ in
      let c₃ = others 3 c₂ in
      (
        λ id h.
            let h₁ = others-keep 1 c id h in
            let h₂ = others-keep 2 c₁ id h₁ in
            let h₃ = others-keep 3 c₂ id h₂ in
            ground (arith, h, h₁, h₂, h₃, write_overlapped-keeps r.next_step r c₃ id h₃),
        λ s. ground (arith, s, write_overlapped-records r.next_step r c₃),
        λ s. elim (Bool-cases (contains r.control_decision_id c.next_steps)) [
          | inr e ↦ e
          | inl e ↦
              let id = r.control_decision_id in
              let known = others-keep 2 c₁ id (others-keep 1 c id e) in ground (arith, s, known)
        ],
      )

created_overlapped-not_known :
    (id : String) (calls : List OverlappedCall) (c : ControlStore)
    → AllInterfere calls
    → contains id c.next_steps ≡ true
    → is_in id (created_overlapped calls c) ≡ false
unfolding created_overlapped AllInterfere
created_overlapped-not_known id [] c i h = refl
created_overlapped-not_known id (call ∷ calls) c (i, rest) h =
    let (kept, recorded, new) = apply_overlapped_facts call.others i call.result c in
    let after = (apply_overlapped call.others call.result c).1 in
    ground (arith, created_overlapped-not_known id calls after rest, kept id, new)

-- A thread that makes its calls one after another never creates two next steps for one decision,
-- whatever steps, moves and ends of the job other threads write between the accesses of its calls.
-- Two calls of different threads that overlap are not covered: the store has no lock, and both can
-- create.
pub created_overlapped-distinct :
    (calls : List OverlappedCall) (c : ControlStore)
    → AllInterfere calls
    → all_distinct (created_overlapped calls c) ≡ true
unfolding created_overlapped AllInterfere
created_overlapped-distinct [] c i = refl
created_overlapped-distinct (call ∷ calls) c (i, rest) =
    let (kept, recorded, new) = apply_overlapped_facts call.others i call.result c in
    let after = (apply_overlapped call.others call.result c).1 in
    ground (
      arith,
      created_overlapped-distinct calls after rest,
      created_overlapped-not_known call.result.control_decision_id calls after rest,
      recorded,
    )
