-- ===== src/Bridge/Refusals.antt =====
-- The failures that `admitRequest` and `joinOperation` of bridge-service.ts reject with.
use robloxstudio_mcp.Shared.{ℕ, String, none, some, List, [], ◌∷◌, concat, show}
use robloxstudio_mcp.Bridge.Types.{
  OperationRecord, RequestFailure, FailureDetails, FailureOutcome, ExecutionOutcome, queued,
  server_send, no_observations, max_request_bytes, max_pending_requests, max_pending_request_bytes,
}
use robloxstudio_mcp.Bridge.Failure.{stage_name}

abbrev pub not_executed_details : String → String → FailureDetails
not_executed_details id target_peer_id = record {
  seen = record no_observations { execution_outcome = some ExecutionOutcome.not_executed };
  request_id = id;
  target_peer_id = target_peer_id;
  stage = queued;
  outcome = FailureOutcome.not_executed;
  bytes = none;
  limit_bytes = none;
  transport_stage = none;
}

unfoldable pub refusal : String → List String → FailureDetails → RequestFailure
refusal code message details = record { message = concat message; code = code; details = details }

-- `operationCollision`.
unfoldable pub operation_collision : String → OperationRecord → RequestFailure
operation_collision id existing = record {
  message = concat (
      "Request "
      ∷ id
      ∷ " already identifies a different operation; existing operation "
      ∷ stage_name existing.status.stage
      ∷ "; not replayed"
      ∷ []);
  code = "operation_id_collision";
  details = record {
    seen = existing.status.seen;
    request_id = id;
    target_peer_id = existing.status.target_peer_id;
    stage = existing.status.stage;
    outcome = FailureOutcome.unknown;
    bytes = none;
    limit_bytes = none;
    transport_stage = none;
  };
}

abbrev pub invalid_id : String → String → RequestFailure
invalid_id id target =
    refusal "invalid_operation_id"
      ("operationId must be a nonempty string of at most 128 characters" ∷ [])
      (not_executed_details id target)

abbrev pub already_aborted : String → String → RequestFailure
already_aborted id target =
    refusal "request_aborted" ("Request aborted: " ∷ id ∷ "; queued; not_executed" ∷ [])
      (not_executed_details id target)

abbrev pub unserializable : String → String → RequestFailure
unserializable id target =
    refusal "request_serialization_failed"
      ("Request " ∷ id ∷ " cannot be serialized; queued; not_executed" ∷ [])
      (not_executed_details id target)

abbrev pub too_large : String → String → ℕ → RequestFailure
too_large id target bytes =
    refusal "request_too_large"
      ("Request "
        ∷ id
        ∷ " is "
        ∷ show bytes
        ∷ " bytes at server_send; limit "
        ∷ show max_request_bytes
        ∷ " bytes; queued; not_executed"
        ∷ [])
      (record (not_executed_details id target) {
        bytes = some bytes;
        limit_bytes = some max_request_bytes;
        transport_stage = some server_send;
      })

abbrev pub over_capacity : String → String → ℕ → ℕ → RequestFailure
over_capacity id target requests bytes =
    refusal "request_capacity_exceeded"
      ("Request "
        ∷ id
        ∷ " rejected at admission: pending capacity exceeded ("
        ∷ show requests
        ∷ "/"
        ∷ show max_pending_requests
        ∷ " requests, "
        ∷ show bytes
        ∷ "/"
        ∷ show max_pending_request_bytes
        ∷ " bytes); queued; not_executed"
        ∷ [])
      (record (not_executed_details id target) {
        bytes = some bytes;
        limit_bytes = some max_pending_request_bytes;
      })
