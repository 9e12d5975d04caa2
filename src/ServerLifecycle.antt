-- ===== src/ServerLifecycle.antt =====
-- The lifecycle of an MCP server: admission, drain and shutdown
-- (projects/ai-agent/src/mcp_server_lifecycle.py). A Python set is a list without repetition, whose
-- order nothing depends on: it is read through `sorted` only.
pub mod Sets
pub mod Requests
pub mod Validity
pub mod Drain
mod Examples
use ai_backend_engineer_hand.Prelude.{
  ℕ, String, Bool, true, false, not, Option, none, some, List, [], ◌∷◌, Result, ok, raised,
  value_error, Eq, ◌==◌, holds, string_eq, is_in, sorted, if◌then◌else◌,
}

pub data ServerLifecycleState : Type 0 where
  accepting draining stopped : ServerLifecycleState

unfoldable pub ServerLifecycleState-discrete : Discrete ServerLifecycleState
ServerLifecycleState-discrete = hlevel

instance abbrev pub lifecycle_state_eq : Eq ServerLifecycleState
lifecycle_state_eq = record { beq = λ a b. holds (ServerLifecycleState-discrete a b) }

pub data RequestAdmissionOutcome : Type 0 where
  admitted shutdown_rejected : RequestAdmissionOutcome

pub data DrainOutcome : Type 0 where
  clean pending_reconciliation : DrainOutcome

pub record RequestAdmissionDecision : Type 0 where
  pub outcome : RequestAdmissionOutcome
  pub operation_id : String

pub record DrainReport : Type 0 where
  pub outcome : DrainOutcome
  pub pending_operation_ids : List String
  pub committer_calls : ℕ

-- `MCPServerLifecycle`: `_state`, `_in_flight` and `_pending_reconciliation`.
pub record ServerLifecycle : Type 0 where
  pub state : ServerLifecycleState
  pub in_flight : List String
  pub pending : List String

-- `MCPServerLifecycle(...)`.
unfoldable pub new_lifecycle : ServerLifecycle
new_lifecycle = record { state = accepting; in_flight = []; pending = [] }

-- `items.remove(item)` of an item that is there.
unfoldable pub remove : String → List String → List String
remove a [] = []
remove a (x ∷ xs) = if x == a then xs else x ∷ remove a xs

-- `items.update(others)`.
unfoldable pub union : List String → List String → List String
union xs [] = xs
union xs (y ∷ ys) = union (if is_in y xs then xs else y ∷ xs) ys

-- `in_flight_operation_ids`.
unfoldable pub in_flight_operation_ids : ServerLifecycle → List String
in_flight_operation_ids l = sorted l.in_flight

unfoldable pub begin_request :
    String → ServerLifecycle → Result RequestAdmissionDecision × ServerLifecycle
begin_request id l =
    if not (l.state == accepting)
    then (ok (record { outcome = shutdown_rejected; operation_id = id }), l)
    else if is_in id l.in_flight
    then (raised (value_error "operation is already in flight"), l)
    else (
      ok (record { outcome = admitted; operation_id = id }),
      record l { in_flight = id ∷ l.in_flight },
    )

unfoldable pub complete_request : String → ServerLifecycle → Bool × ServerLifecycle
complete_request id l =
    if is_in id l.pending
    then (false, l)
    else if not (is_in id l.in_flight)
    then (false, l)
    else (true, record l { in_flight = remove id l.in_flight })

unfoldable pub start_shutdown : ServerLifecycle → ServerLifecycle
start_shutdown l = if l.state == accepting then record l { state = draining } else l

abbrev pub is_empty : List String → Bool
is_empty [] = true
is_empty (_ ∷ _) = false

unfoldable pub finish_clean_drain : ServerLifecycle → Result DrainReport × ServerLifecycle
finish_clean_drain l =
    if not (l.state == draining)
    then (raised (value_error "Server is not draining"), l)
    else if not (is_empty l.in_flight)
    then (raised (value_error "cannot finish a clean drain with in-flight work"), l)
    else (
      ok (record { outcome = clean; pending_operation_ids = []; committer_calls = 0 }),
      record l { state = stopped },
    )

-- The two ports: calls that change a world `W` and return or raise.
module _ {W : Type 0} (cancel mark_pending : String → W → Result (Unit {0}) × W) where
  -- What follows a call: the rest, unless it raised.
  abbrev pub and_then : {A : Type 0} → Result (Unit {0}) × W → (W → Result A × W) → Result A × W
  and_then (ok _, w) k = k w
  and_then (raised e, w) k = (raised e, w)

  -- The loop over the pending operations.
  unfoldable pub hand_over : List String → W → Result (Unit {0}) × W
  hand_over [] w = (ok tt, w)
  hand_over (id ∷ ids) w =
      and_then (cancel id w) λ w₁. and_then (mark_pending id w₁) (hand_over ids)

  -- `expire_drain_timeout`: the state is frozen first, then the ports are called.
  unfoldable pub expire_drain_timeout :
      ServerLifecycle → W → Result DrainReport × ServerLifecycle × W
  expire_drain_timeout l w =
      if not (l.state == draining)
      then (raised (value_error "Server is not draining"), l, w)
      else let ids = sorted l.in_flight in
        let (outcome, w') = hand_over ids w in
        (
          elim outcome [
            | ok _ ↦ ok (record {
              outcome = if is_empty ids then clean else pending_reconciliation;
              pending_operation_ids = ids;
              committer_calls = 0;
            })
            | raised e ↦ raised e
          ],
          record l { state = stopped; pending = union l.pending ids },
          w',
        )
