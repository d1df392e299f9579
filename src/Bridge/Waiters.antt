-- ===== src/Bridge/Waiters.antt =====
-- How a request's waiter ends without a response: `removePendingRequest`, `endRequestWaiter`,
-- `notifyRequestCancelled`, `cleanupOldRequests` and `clearAllPendingRequests` of
-- bridge-service.ts. The clock reads the same throughout one call.
use robloxstudio_mcp.Shared.{
  ℕ, ◌-◌, String, Bool, true, false, Option, none, some, [], ◌∷◌, ◌&&◌, Dict, get, has, put, remove,
  leb, if◌then◌else◌, is_some, not, concat,
}
use robloxstudio_mcp.Bridge.Types.{
  Bridge, Stage, OperationRecord, PendingRequest, CancellationReason, RequestState, FailureOutcome,
  ExecutionOutcome, Outcome, RequestFailure, Effect, queued, dispatched, timeout, reject, lifecycle,
  available, failure, no_observations,
}
use robloxstudio_mcp.Bridge.Failure.{stage_name, outcome_name}
use robloxstudio_mcp.Bridge.Prune.{prune_operations, prune_cancellations}

-- The states that `endRequestWaiter` may be given.
pub data Ending : Type 0 where
  timed_out aborted disconnected : Ending

abbrev pub state_of : Ending → RequestState
state_of Ending.timed_out = RequestState.timed_out
state_of Ending.aborted = RequestState.aborted
state_of Ending.disconnected = RequestState.disconnected

-- `map.delete(key); map.set(key, value)`.
abbrev pub move_last {ℓ} : {V : Type ℓ} → String → V → Dict V → Dict V
move_last id v m = put id v (remove id m)

abbrev pub emit : Effect → Bridge → Bridge
emit e s = record s { effects = e ∷ s.effects }

unfoldable pub remove_pending_request : PendingRequest → Bridge → Bridge
remove_pending_request r s = record s {
  pending_requests = remove r.id s.pending_requests;
  pending_request_bytes = s.pending_request_bytes - r.request_bytes;
}

abbrev is_queued : Stage → Bool
is_queued queued = true
is_queued _ = false

abbrev was_not_executed : Option ExecutionOutcome → Bool
was_not_executed (some ExecutionOutcome.not_executed) = true
was_not_executed _ = false

abbrev pub stage_at_end : PendingRequest → Option OperationRecord → Stage
stage_at_end r (some operation) = operation.status.stage
stage_at_end r none = if is_some r.last_delivery_transport_peer_id then dispatched else queued

abbrev pub outcome_at_end : Stage → Option OperationRecord → FailureOutcome
outcome_at_end stage (some operation) =
    if is_queued stage
    then FailureOutcome.not_executed
    else if was_not_executed operation.status.seen.execution_outcome
    then FailureOutcome.not_executed
    else FailureOutcome.unknown
outcome_at_end stage none =
    if is_queued stage then FailureOutcome.not_executed else FailureOutcome.unknown

abbrev pub as_outcome : FailureOutcome → Outcome
as_outcome FailureOutcome.not_executed = Outcome.not_executed
as_outcome FailureOutcome.unknown = Outcome.unknown

-- What the end of its waiter writes to an operation.
unfoldable pub ended : ℕ → Ending → Stage → FailureOutcome → OperationRecord → OperationRecord
ended now ending stage outcome operation = record operation {
  status = record (operation.status) {
    seen = record (operation.status.seen) {
      execution_outcome =
          if is_queued stage
          then some ExecutionOutcome.not_executed
          else operation.status.seen.execution_outcome;
    };
    waiter_ended_at = some now;
    state = state_of ending;
    outcome = as_outcome outcome;
  };
  updated_at = now;
}

unfoldable pub end_operation :
    ℕ → Ending → String → Stage → FailureOutcome → Option OperationRecord → Bridge → Bridge
end_operation now ending id stage outcome none s = s
end_operation now ending id stage outcome (some operation) s = record s {
  operations = move_last id (ended now ending stage outcome operation) s.operations;
  effects = lifecycle id ∷ s.effects;
}

unfoldable pub notify_request_cancelled : ℕ → PendingRequest → CancellationReason → Bridge → Bridge
notify_request_cancelled now r reason s = elim r.last_delivery_transport_peer_id [
  | none ↦ s
  | some transport ↦ if has r.id s.pending_cancellations then s else record s {
    pending_cancellations = prune_cancellations now (
        put r.id
          (record {
            request_id = r.id;
            reason = reason;
            transport_peer_id = transport;
            created_at = now;
            claim_owner = none;
          })
          (prune_cancellations now s.pending_cancellations));
    effects = available transport ∷ s.effects;
  }
]

unfoldable pub notify_end : ℕ → PendingRequest → Ending → Bridge → Bridge
notify_end now r Ending.disconnected s = s
notify_end now r Ending.timed_out s = notify_request_cancelled now r timeout s
notify_end now r Ending.aborted s = notify_request_cancelled now r CancellationReason.aborted s

abbrev connection_lost : Option OperationRecord → Bool
connection_lost none = false
connection_lost (some operation) =
    is_some operation.status.seen.connection_lost_at
    && not (is_some operation.status.seen.connection_restored_at)

abbrev pub ending_code : Ending → Bool → String
ending_code Ending.timed_out true = "request_connection_lost"
ending_code Ending.timed_out false = "request_timeout"
ending_code Ending.aborted lost = "request_aborted"
ending_code Ending.disconnected lost = "request_disconnected"

unfoldable pub ending_failure :
    Ending
    → String
    → PendingRequest
    → Stage
    → FailureOutcome
    → Option OperationRecord
    → RequestFailure
ending_failure ending message r stage outcome operation = record {
  message = concat (
      message
      ∷ ": "
      ∷ r.id
      ∷ "; "
      ∷ stage_name stage
      ∷ "; "
      ∷ outcome_name outcome
      ∷ (if connection_lost operation then "; connection lost" else "")
      ∷ "; waiter ended, execution is not cancelled or rolled back"
      ∷ []);
  code = ending_code ending (connection_lost operation);
  details = record {
    seen = elim operation [ none ↦ no_observations | some o ↦ o.status.seen ];
    request_id = r.id;
    target_peer_id = r.target_peer_id;
    stage = stage;
    outcome = outcome;
    bytes = none;
    limit_bytes = none;
    transport_stage = none;
  };
}

-- `endRequestWaiter` on a request that is still in the map.
unfoldable pub end_pending : ℕ → Ending → String → PendingRequest → Bridge → Bridge
end_pending now ending message r s =
    let t = remove_pending_request r s in
    let operation = get r.id t.operations in
    let stage = stage_at_end r operation in
    let outcome = outcome_at_end stage operation in
    let u = end_operation now ending r.id stage outcome operation t in
    let v = notify_end now r ending u in
    emit
      (reject r.id
        (failure (ending_failure ending message r stage outcome (get r.id u.operations))))
      v

-- A request that has left the map is left alone.
unfoldable pub end_request_waiter : ℕ → Ending → String → String → Bridge → Bridge
end_request_waiter now ending message id s = elim (get id s.pending_requests) [
  | none ↦ s
  | some r ↦ end_pending now ending message r s
]

-- The timer and the abort listener of a request.
unfoldable pub fire_timeout : ℕ → String → Bridge → Bridge
fire_timeout now id s = end_request_waiter now Ending.timed_out "Request timeout" id s

unfoldable pub fire_abort : ℕ → String → Bridge → Bridge
fire_abort now id s = end_request_waiter now Ending.aborted "Request aborted" id s

unfoldable pub end_overdue : ℕ → Dict PendingRequest → Bridge → Bridge
end_overdue now [] s = s
end_overdue now ((id, r) ∷ rest) s =
    end_overdue now rest (if leb r.timeout_ms (now - r.timestamp) then fire_timeout now id s else s)

unfoldable pub cleanup_old_requests : ℕ → Bridge → Bridge
cleanup_old_requests now s = prune_operations now (end_overdue now s.pending_requests s)

unfoldable pub end_all : ℕ → Dict PendingRequest → Bridge → Bridge
end_all now [] s = s
end_all now ((id, r) ∷ rest) s =
    end_all now rest (end_request_waiter now Ending.disconnected "Connection closed" id s)

unfoldable pub clear_all_pending_requests : ℕ → Bridge → Bridge
clear_all_pending_requests now s = record (end_all now s.pending_requests s) {
  pending_cancellations = [];
}
