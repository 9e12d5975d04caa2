-- ===== src/Coordination/Ownership.antt =====
-- Who may work on a handoff, and the dispatch to the provider (`claim`, `take_over_expired_lease`,
-- `authorize_provider_dispatch` and `record_provider_dispatch` of
-- projects/ai-agent/src/multi_agent_coordination.py).
use ai_backend_engineer_hand.Prelude.{
  ℕ, String, ◌+◌, Bool, true, not, ◌||◌, Option, none, some, List, Result, ok, raised, value_error,
  ◌==◌, string_eq, nat_eq, option_eq, leb, ltb, is_in, lookup, insert, if◌then◌else◌,
}
use ai_backend_engineer_hand.Coordination.Types.{
  claimed, dispatched, cancelled, handoff_state_eq, ClaimStatus, newly_claimed, duplicate_claim,
  already_claimed, handoff_not_found, handoff_not_claimable, DispatchStatus, dispatch_status_eq,
  allowed, no_handoff, not_current_owner, stale_fence, lease_expired, current_authorization_denied,
  handoff_not_claimed, HandoffRecord, ClaimDecision, CoordinationStore,
}

-- The store with another record of a handoff.
abbrev pub with_record : String → HandoffRecord → CoordinationStore → CoordinationStore
with_record id r s = record s { records = insert id r s.records }

-- The answer of a claim that changes nothing.
abbrev pub unclaimed : ClaimStatus → String → Option String → Option ℕ → ClaimDecision
unclaimed status id owner fence = record {
  status = status;
  handoff_id = id;
  owner = owner;
  fence_token = fence;
}

unfoldable pub claim_handoff :
    (id worker_id : String) (now lease_duration : ℕ)
    → CoordinationStore
    → Result ClaimDecision × CoordinationStore
claim_handoff id worker_id now lease_duration s =
    if leb lease_duration 0
    then (raised (value_error "lease_duration must be positive"), s)
    else elim (lookup id s.records) [
      | none ↦ (ok (unclaimed handoff_not_found id none none), s)
      | some r ↦
          if r.state == cancelled
          then (ok (unclaimed handoff_not_claimable id r.claim_owner (some r.fence_token)), s)
          else elim r.claim_owner [
            | some owner ↦ (
              ok (
                  unclaimed (if owner == worker_id then duplicate_claim else already_claimed) id
                    (some owner) (some r.fence_token)),
              s,
            )
            | none ↦ (
              ok (unclaimed newly_claimed id (some worker_id) (some (r.fence_token + 1))),
              with_record id
                  (record r {
                    state = claimed;
                    state_version = r.state_version + 1;
                    claim_owner = some worker_id;
                    lease_expires_at = some (now + lease_duration);
                    fence_token = r.fence_token + 1;
                  })
                  s,
            )
          ]
    ]

-- `lease_expires_at is None or now < lease_expires_at`: the lease has not ended.
unfoldable pub lease_runs : Option ℕ → ℕ → Bool
lease_runs none now = true
lease_runs (some ends) now = ltb now ends

unfoldable pub take_over_lease :
    (id worker_id : String) (now lease_duration : ℕ)
    → CoordinationStore
    → Result ClaimDecision × CoordinationStore
take_over_lease id worker_id now lease_duration s =
    if leb lease_duration 0
    then (raised (value_error "lease_duration must be positive"), s)
    else elim (lookup id s.records) [
      | none ↦ (ok (unclaimed handoff_not_found id none none), s)
      | some r ↦
          if r.claim_owner == none || lease_runs r.lease_expires_at now
          then (ok (unclaimed handoff_not_claimable id r.claim_owner (some r.fence_token)), s)
          else (
            ok (unclaimed newly_claimed id (some worker_id) (some (r.fence_token + 1))),
            with_record id
                (record r {
                  state_version = r.state_version + 1;
                  claim_owner = some worker_id;
                  lease_expires_at = some (now + lease_duration);
                  fence_token = r.fence_token + 1;
                })
                s,
          )
    ]

-- `lease_expires_at is None or now >= lease_expires_at`.
unfoldable pub lease_ended : Option ℕ → ℕ → Bool
lease_ended none now = true
lease_ended (some ends) now = leb ends now

-- What a worker brings to a dispatch.
pub record DispatchRequest : Type 0 where
  pub worker_id : String
  pub fence_token : ℕ
  pub required_capability : String
  pub current_allowed_capabilities : List String
  pub now : ℕ

unfoldable pub authorize_provider_dispatch :
    String → DispatchRequest → CoordinationStore → DispatchStatus
authorize_provider_dispatch id q s = elim (lookup id s.records) [
  | none ↦ no_handoff
  | some r ↦
      if not (r.state == claimed)
      then handoff_not_claimed
      else if not (r.fence_token == q.fence_token)
      then stale_fence
      else if not (r.claim_owner == some q.worker_id)
      then not_current_owner
      else if lease_ended r.lease_expires_at q.now
      then lease_expired
      else if not (is_in q.required_capability r.grant.capabilities)
          || not (is_in q.required_capability q.current_allowed_capabilities)
      then current_authorization_denied
      else allowed
]

unfoldable pub record_provider_dispatch :
    String → DispatchRequest → String → CoordinationStore → DispatchStatus × CoordinationStore
record_provider_dispatch id q operation_id s =
    let status = authorize_provider_dispatch id q s in
    if not (status == allowed) then (status, s) else elim (lookup id s.records) [
      | none ↦ (status, s)
      | some r ↦ (
        status,
        with_record id
            (record r {
              state = dispatched;
              state_version = r.state_version + 1;
              operation_id = some operation_id;
            })
            s,
      )
    ]
