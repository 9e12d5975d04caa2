-- ===== src/Lib.antt =====
-- Verification of the control core of the AI agent (projects/ai-agent/src): the loop that decides
-- what the agent does next, the state machine that bounds it, the durable job that survives a crash,
-- the remote calls and the server that carry its effects, the handoff of work to other agents, and the
-- control by people; and of the control plane that admits a job to a paid provider
-- (projects/ai-backend-data-layer/api).
--
-- How the parts interact. `decide_control` turns the facts of a step into a control decision. The
-- state machine turns that decision, budgets and authorization into a candidate, which its store
-- applies under a fence. A durable job keeps what survives the worker: a checkpoint, reservations, an
-- outbox, a lease; a recovery is decided from a snapshot of it and applied under the same kind of
-- guard. A remote attempt that fails leaves evidence, from which the retry policy decides; a retry is
-- planned, admitted once more when its delay is over, and claimed in the store of dispatches before
-- its transport is called. An attempt that may have been executed is reconciled instead: an authority
-- is asked, its answer is committed once, and a committed absence is evidence for a retry. The server
-- registers what it has admitted, and hands it over when a drain times out. A parent hands work to a
-- child under a part of its own tokens; a child claims it under a lease and a fence, and its result
-- counts only if it is verified against both. An action that needs a person's approval is dispatched
-- through the human control of its job, which recovers the job with the same recoveries. A worker that
-- holds a job of the data layer asks the control plane before it calls the provider: the circuit of
-- the failure domain, the limiter of the fleet and the tenant's reservation must all agree, and what
-- does not agree defers the job.
--
-- Files and code (paths under projects/ai-agent/src, but for ProviderResilience):
--   AgentLoop: agent_loop.py. Types has the records, Decide `decide_control`, Store
--     `InMemoryControlStore` and `orchestrate_next_step`; proofs on one decision (Decisions), calls one
--     after another (Delivery) and calls that overlap (Overlaps).
--   AgentStateMachine: agent_state_machine.py. Types, Budget (`BudgetSnapshot`, `ContextBudget`),
--     Progress (the loop detector), Decide (`decide_transition`), Store (`InMemoryAgentStateStore`);
--     proofs on one candidate (Candidates), one call (Transitions), sequences of calls (Traces), the
--     loop detector (Loops), and on the decision and the store together (EndToEnd).
--   DurableJobs: durable_agent_jobs.py. Types, Records, Decide (`decide_durable_recovery`), Store
--     (`InMemoryDurableAgentJobStore`), Outbox (`InMemoryOutboxConsumerGuard`); proofs on decisions
--     (Recoveries), reservations (Reservations), one call (Applied), histories (Histories), the outbox
--     (Intents, Outbox/Deliveries) and leases (Leases).
--   RemoteLifecycle: mcp_remote_lifecycle.py, and `DispatchCertainty` of mcp_client_transport.py.
--   RetryPolicy: mcp_retry_policy.py. Policy has the decisions, Store `InMemoryRetryDispatchStore`;
--     proofs in Decisions, Claims, Histories and Cycle.
--   Reconciliation: mcp_reconciliation.py. Types, Observe (`ReconciliationScheduler`), Store (the store,
--     the committer and the evidence of a committed fact), Schedule (`BoundedReconciliationPolicy`);
--     proofs in Observations, Commits and Schedules.
--   ServerLifecycle: mcp_server_lifecycle.py, with the sets it keeps (Sets), requests, what its calls keep
--     (Validity) and the drain.
--   Coordination: multi_agent_coordination.py. Types, and `InMemoryCoordinationStore` in Store
--     (acceptance), Ownership (claims, takeovers, dispatch) and Outcomes (cancellation, results,
--     aggregation); proofs on how a record changes (Evolution, Changes), the tokens (Allocations),
--     sequences of calls (Histories, Guarantees), acceptance, takeovers, aggregation, and one handoff from its
--     acceptance to its result (Flow).
--   HumanControl: human_control.py. Types, Equality, Guards (the candidate and the first tests), Recover
--     and Decide (`decide_human_control`), Store, Apply and Dispatch (`InMemoryHumanControlStore`); proofs on the
--     execution that a candidate allows (Idle, Requirements, Executions), what an application writes (Histories) and
--     histories of them (Guarantees).
--   ProviderResilience: projects/ai-backend-data-layer/api/day56_provider_resilience.py. Delays, Limiter
--     (`SharedRateLimiter`), Circuit (`CircuitBreaker`), Jobs, Ledger (`TenantBudgetLedger`), Dispatch
--     (`evaluate_dispatch`, `_defer`, `process_deadline`) and Repair; proofs on delays (Floors), the
--     breaker (Domains, Recovery), money (Balances), deadlines, contracts, one evaluation alone
--     (Gates) and among other workers (Sharing, Interleavings, Deferrals), and repairs (Repairs,
--     Histories).
--   Prelude: what the components share; a module Examples of each has runs at concrete inputs.
--
-- How the code is read:
--   - A call is a function from the state to an answer and the state after it. An exception is a
--     value, `raised`, with the message of a ValueError or the key of a KeyError; an `assert` raises
--     `assertion_error`. A store that takes a lock around each call runs its calls one after
--     another, so that the theorems on sequences and histories of its calls are about every
--     concurrent run. Two have no lock, `InMemoryControlStore` (AgentLoop) and
--     `InMemoryOutboxConsumerGuard` (DurableJobs/Outbox), nor has `ReleaseConfig`: theorems on
--     sequences of their calls are about calls that do not overlap, and AgentLoop/Overlaps is about
--     calls of the control store that do. A job of ProviderResilience is written by the call that is
--     given it only. The committer of Reconciliation reads and writes under two locks, so its read
--     and its write are from two stores. A timed-out drain calls its ports after its lock is
--     released; they do not reach the server's state, which is frozen before. The limiter, the
--     ledger and the breaker take a lock each, so that other workers run between two accesses of one
--     `evaluate_dispatch`: the function has what they do there as a parameter.
--   - A `__post_init__` is a function that returns the record or raises. A count, version, fence or
--     time in milliseconds is a natural number where the code checks that it is not negative, or only
--     counts it up and compares it. Where a negative integer reaches a check it is an integer ℤ, and
--     the remainder of a budget is one, since a limit may be below what is used.
--   - SHA-256 is a parameter, Sha256, and nothing is assumed of it: no theorem rests on the absence of
--     collisions. Floats are a parameter, Float, whose only law is that `<` does not hold both ways; a
--     datetime is its microseconds, and its addition to a duration a parameter, Clock, which does not go
--     back for a duration that is not negative. The random numbers that a call draws, and the quoting
--     of a text in JSON, are parameters without a law.
--     The runtime, the authority and the cancellation, reconciliation and alert ports are functions on
--     a world, may raise, and nothing is assumed of them.
--     Capacities, limits and counts of tokens of the coordination and the control plane are natural
--     numbers: a negative one grants as little as 0 does, or is refused as 0 is.
--   - A dict is an association list, a set a list without repetition. A text has no bytes: digests are
--     taken of the text, and `text[:n]` is exact for ASCII, which hexadecimal digits are.
--     The digests of human control are a parameter, Fingerprints, one function for each kind of value.
--   - All loops are recursion on lists. The one fuel is in `str`, n + 1 rounds for the digits of n,
--     which are fewer.
--
-- Not modelled: `_new_id`, a random identity, and `FakeWorker`, a fixture of tests;
-- `prepare_next_step_with_day78` and the files that it calls; of application_runtime.py and
-- tool_governance.py all but the enums and the fields that the code above reads; object identity
-- (`AgentJobState` is changed in place, but only the store is given it); the other modules of
-- projects/ai-agent/src, the other modules of the data layer's API, browser automation and workflow scripts, which are
-- listed with their reasons in the manifest of components.
pub mod Prelude
pub mod AgentLoop
pub mod AgentStateMachine
pub mod Coordination
pub mod DurableJobs
pub mod RemoteLifecycle
pub mod Reconciliation
pub mod HumanControl
pub mod ProviderResilience
pub mod RetryPolicy
pub mod ServerLifecycle
