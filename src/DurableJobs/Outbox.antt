-- ===== src/DurableJobs/Outbox.antt =====
-- `InMemoryOutboxConsumerGuard` of projects/ai-agent/src/durable_agent_jobs.py: delivery is at least
-- once, and the guard tells a first delivery from a repeated one and from a clash of identities.
-- It takes no lock: sequences of deliveries are of deliveries that do not overlap.
pub mod Deliveries
use ai_backend_engineer_hand.Prelude.{
  String, ◌≡◌, refl, ◌≢◌, Bool, true, false, ◌&&◌, Option, none, some, List, [], ◌∷◌, ◌==◌,
  string_eq, Dict, lookup, insert, lookup-insert, arith, if◌then◌else◌,
}
use ai_backend_engineer_hand.DurableJobs.Types.{DeliveryStatus, new, duplicate, identity_conflict}
use ai_backend_engineer_hand.DurableJobs.Records.{OutboxIntent}

-- The guard's `_events`: job, step and attempt by event.
abbrev pub ConsumerGuard : Type 0
ConsumerGuard = Dict (String × String × String)

accept_known :
    Option (String × String × String)
    → OutboxIntent
    → ConsumerGuard
    → DeliveryStatus × ConsumerGuard
accept_known none i g = (new, insert i.event_id (i.job_id, i.step_id, i.attempt_id) g)
accept_known (some (job, step, attempt)) i g = (
  if job == i.job_id && step == i.step_id && attempt == i.attempt_id
      then duplicate
      else identity_conflict,
  g,
)

unfoldable pub accept : OutboxIntent → ConsumerGuard → DeliveryStatus × ConsumerGuard
unfolding accept_known
accept i g = accept_known (lookup i.event_id g) i g
