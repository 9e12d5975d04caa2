-- ===== src/DurableJobs/Intents.antt =====
-- The transactional outbox: an intent is written with the recovery that calls for it.
use ai_backend_engineer_hand.Prelude.{
  ◌≡◌, refl, none, List, [], ◌∷◌, ◌++◌, ok, prefixed, arith, Sha256,
}
use ai_backend_engineer_hand.DurableJobs.Types.{create_recovery_intent, applied, recovery_value}
use ai_backend_engineer_hand.DurableJobs.Records.{OutboxIntent, DurableRecoveryCandidate}
use ai_backend_engineer_hand.DurableJobs.Store.{
  DurableJobStore, add_intent, apply, unpublished, unpublished_outbox_intents,
}
use ai_backend_engineer_hand.DurableJobs.Applied.{apply-applied}

unpublished-append :
    (xs ys : List OutboxIntent) → unpublished (xs ++ ys) ≡ unpublished xs ++ unpublished ys
unfolding unpublished
unpublished-append [] ys = refl
unpublished-append (x ∷ xs) ys = ground (arith, unpublished-append xs ys)

-- The intent of a recovery.
abbrev pub intent_of : DurableRecoveryCandidate → OutboxIntent
intent_of c = record {
  event_id = prefixed "recovery:" c.recovery_id;
  job_id = c.job_id;
  step_id = c.step_id;
  attempt_id = c.attempt_id;
  event_type = recovery_value c.decision;
  published_at_epoch_ms = none;
}

module _ ⦃sha : Sha256⦄ where
  -- An applied recovery that calls for an intent leaves exactly one more to be published, the last
  -- one, with the candidate's own identity; any other applied recovery leaves the outbox as it was.
  apply-unpublished :
      (c : DurableRecoveryCandidate) (s : DurableJobStore)
      → (apply c s).0 ≡ ok applied
      → ((c.outbox_action ≡ create_recovery_intent)
          → unpublished_outbox_intents (apply c s).1
            ≡ unpublished_outbox_intents s ++ intent_of c ∷ [])
        × ((c.outbox_action ≡ create_recovery_intent → ⊥)
            → (apply c s).1.job.outbox_intents ≡ s.job.outbox_intents)
  unfolding add_intent unpublished_outbox_intents unpublished
  apply-unpublished c s h =
      ground
        (arith, apply-applied c s h, unpublished-append s.job.outbox_intents (intent_of c ∷ []))
