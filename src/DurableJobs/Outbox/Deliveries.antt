-- ===== src/DurableJobs/Outbox/Deliveries.antt =====
-- What the consumer guard promises over repeated deliveries.
use ai_backend_engineer_hand.Prelude.{
  String, ◌≡◌, refl, ◌≢◌, ◌⊎◌, inl, inr, true, false, Option, none, some, Option-cases, List, [],
  ◌∷◌, string_eq, lookup, is_in, all_distinct, lookup-insert, arith,
}
use ai_backend_engineer_hand.DurableJobs.Types.{DeliveryStatus, new, duplicate, identity_conflict}
use ai_backend_engineer_hand.DurableJobs.Records.{OutboxIntent}
use ai_backend_engineer_hand.DurableJobs.Outbox.{ConsumerGuard, accept}

-- What a delivery means, by what the guard knows of the event.
abbrev pub Verdict : Option (String × String × String) → OutboxIntent → DeliveryStatus → Type 0
Verdict none i status = status ≡ new
Verdict (some (job, step, attempt)) i status =
    ((status ≡ duplicate) × (job ≡ i.job_id) × (step ≡ i.step_id) × (attempt ≡ i.attempt_id))
    ⊎ ((status ≡ identity_conflict)
        × ((job ≢ i.job_id) ⊎ (step ≢ i.step_id) ⊎ (attempt ≢ i.attempt_id)))

-- A delivery is new, a duplicate or a conflict by what is on record for its event; one that is not new
-- changes nothing.
pub accept-Verdict :
    (i : OutboxIntent) (g : ConsumerGuard)
    → let (status, g') = accept i g in
      Verdict (lookup i.event_id g) i status × ((status ≢ new) → g' ≡ g)
unfolding accept
accept-Verdict i g = elim (Option-cases (lookup i.event_id g)) [
  | inl unknown ↦ ground arith
  | inr (known, e) ↦ ground arith
]

accept-keeps :
    (id : String) (known : String × String × String) (i : OutboxIntent) (g : ConsumerGuard)
    → lookup id g ≡ some known
    → lookup id (accept i g).1 ≡ some known
unfolding accept
accept-keeps id known i g h =
    ground (arith, lookup-insert i.event_id id (i.job_id, i.step_id, i.attempt_id) g)

accept-records :
    (i : OutboxIntent) (g : ConsumerGuard)
    → (accept i g).0 ≡ new
    → lookup i.event_id (accept i g).1 ≡ some (i.job_id, i.step_id, i.attempt_id)
unfolding accept
accept-records i g h =
    ground (arith, lookup-insert i.event_id i.event_id (i.job_id, i.step_id, i.attempt_id) g)

accept-known :
    (known : String × String × String) (i : OutboxIntent) (g : ConsumerGuard)
    → lookup i.event_id g ≡ some known
    → (accept i g).0 ≢ new
unfolding accept
accept-known known i g h = ground arith

-- The events that a sequence of deliveries reports as new.
pub new_events : List OutboxIntent → ConsumerGuard → List String
new_events [] g = []
new_events (i ∷ is) g =
    let (status, g') = accept i g in
    elim status [
      | new ↦ i.event_id ∷ new_events is g'
      | duplicate ↦ new_events is g'
      | identity_conflict ↦ new_events is g'
    ]

new_events-not_known :
    (id : String) (known : String × String × String) (is : List OutboxIntent) (g : ConsumerGuard)
    → lookup id g ≡ some known
    → is_in id (new_events is g) ≡ false
unfolding new_events
new_events-not_known id known [] g h = refl
new_events-not_known id known (i ∷ is) g h = ground (
  arith,
  new_events-not_known id known is (accept i g).1 (accept-keeps id known i g h),
  accept-known known i g,
)

-- Over any sequence of deliveries that do not overlap, repeated and reordered as the broker likes, each event is
-- reported as new at most once.
new_events-distinct :
    (is : List OutboxIntent) (g : ConsumerGuard) → all_distinct (new_events is g) ≡ true
unfolding new_events
new_events-distinct [] g = refl
new_events-distinct (i ∷ is) g = ground (
  arith,
  new_events-distinct is (accept i g).1,
  accept-records i g,
  new_events-not_known i.event_id (i.job_id, i.step_id, i.attempt_id) is (accept i g).1,
)
