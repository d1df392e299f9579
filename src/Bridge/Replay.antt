-- ===== src/Bridge/Replay.antt =====
-- `replayRetained` of bridge-service.ts: what an identical retry of a finished operation gets.
use robloxstudio_mcp.Shared.{
  String, Bool, true, false, Option, none, some, [], ◌∷◌, ◌&&◌, if◌then◌else◌, str_eq, or_else,
  concat,
}
use robloxstudio_mcp.Json.{Value, undefined, string, object, property}
use robloxstudio_mcp.Bridge.Types.{
  RequestFailure, FailureDetails, FailureOutcome, RequestState, ExecutionOutcome, Outcome, Thrown,
  Unavailable, failure, other,
}
use robloxstudio_mcp.Bridge.Failure.{
  Parsed, threw, absent, found, stage_name, parse_failure_details,
}
use robloxstudio_mcp.Bridge.Settlement.{Report, is_settled}

-- What a caller's promise becomes: still open under an identifier, settled, or the exception
-- that `parseObservations` throws in the call itself.
pub data Reply : Type 0 where
  open_on : String → Reply
  resolved : Value → Reply
  refused : Thrown → Reply
  raised : Reply

-- The test on a retained error: a recorded `RequestFailure`, with its message, code and details.
unfoldable pub recorded_failure : Value → Option (String × String × Value)
recorded_failure (object fs) = elim (property "name" fs) [
  | some (string name) ↦ elim (property "code" fs) [
    | some (string code) ↦ elim (property "message" fs) [
      | some (string message) ↦ elim (property "details" fs) [
        | some details ↦
            if str_eq name "RequestFailure" then some (message, code, details) else none
        | none ↦ none
      ]
      | _ ↦ none
    ]
    | _ ↦ none
  ]
  | _ ↦ none
]
recorded_failure _ = none

abbrev plain_replay : Report → Reply
plain_replay r = elim r.error [
  | some e ↦ refused (other e)
  | none ↦ resolved (or_else r.response undefined)
]

abbrev revive : Report → String → String → Parsed FailureDetails → Reply
revive r message code threw = raised
revive r message code absent = plain_replay r
revive r message code (found details) =
    refused (failure (record { message = message; code = code; details = details }))

abbrev pub state_name : RequestState → String
state_name RequestState.pending = "pending"
state_name RequestState.timed_out = "timed_out"
state_name RequestState.aborted = "aborted"
state_name RequestState.disconnected = "disconnected"
state_name RequestState.settled = "settled"

abbrev pub status_outcome_name : Outcome → String
status_outcome_name Outcome.pending = "pending"
status_outcome_name Outcome.not_executed = "not_executed"
status_outcome_name Outcome.unknown = "unknown"
status_outcome_name Outcome.success = "success"
status_outcome_name Outcome.error = "error"

abbrev failure_outcome : Option ExecutionOutcome → FailureOutcome
failure_outcome (some ExecutionOutcome.not_executed) = FailureOutcome.not_executed
failure_outcome _ = FailureOutcome.unknown

unfoldable pub not_replayed : Report → String → RequestFailure
not_replayed r target_peer_id = record {
  message = concat (
      "Request "
      ∷ r.status.request_id
      ∷ " already exists: "
      ∷ state_name r.status.state
      ∷ "; "
      ∷ stage_name r.status.stage
      ∷ "; "
      ∷ status_outcome_name r.status.outcome
      ∷ "; use get_request_status; not replayed"
      ∷ []);
  code = "operation_not_replayed";
  details = record {
    seen = r.status.seen;
    request_id = r.status.request_id;
    target_peer_id = target_peer_id;
    stage = r.status.stage;
    outcome = failure_outcome r.status.seen.execution_outcome;
    bytes = none;
    limit_bytes = none;
    transport_stage = none;
  };
}

abbrev is_available : Option Unavailable → Bool
is_available none = true
is_available (some u) = false

abbrev replay_error : Report → String → Option Value → Reply
replay_error r target_peer_id none = plain_replay r
replay_error r target_peer_id (some e) = elim (recorded_failure e) [
  | none ↦ plain_replay r
  | some (message, code, details) ↦
      revive r message code (parse_failure_details details r.status.request_id target_peer_id)
]

-- `replayRetained`.
unfoldable pub replay_retained : Report → String → Reply
replay_retained r target_peer_id =
    if is_settled r.status.state && is_available r.status.result_unavailable
    then replay_error r target_peer_id r.error
    else refused (failure (not_replayed r target_peer_id))
