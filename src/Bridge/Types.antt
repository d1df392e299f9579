-- ===== src/Bridge/Types.antt =====
-- The records of packages/core/src/bridge-service.ts, its limits and the state of `BridgeService`.
use robloxstudio_mcp.Shared.{ℕ, String, Bool, Option, none, List, [], Dict}
use robloxstudio_mcp.Json.{Value, Fields}

pub data Stage : Type 0 where
  queued dispatched executing response_delivery : Stage

pub data ExecutionOutcome : Type 0 where
  success error not_executed unknown : ExecutionOutcome

pub data RequestState : Type 0 where
  pending timed_out aborted disconnected settled : RequestState

pub data Outcome : Type 0 where
  pending not_executed unknown success error : Outcome

-- What a failure says of the execution.
pub data FailureOutcome : Type 0 where
  not_executed unknown : FailureOutcome

pub data Disposition : Type 0 where
  accepted already_settled unknown : Disposition

pub data CancellationReason : Type 0 where
  timeout aborted connection_closed : CancellationReason

pub data TransportStage : Type 0 where
  server_send proxy_send http_receive : TransportStage

pub data UnavailableReason : Type 0 where
  size_limit serialization_failed retention_capacity : UnavailableReason

pub record Unavailable : Type 0 where
  pub reason : UnavailableReason
  pub bytes : Option ℕ
  pub limit_bytes : ℕ

-- `RequestObservations`.
pub record Observations : Type 0 where
  pub execution_started_at : Option ℕ
  pub execution_completed_at : Option ℕ
  pub execution_outcome : Option ExecutionOutcome
  pub connection_lost_at : Option ℕ
  pub connection_restored_at : Option ℕ

pub record RequestStatus : Type 0 where
  pub seen : Observations
  pub request_id : String
  pub target_peer_id : String
  pub queued_at : ℕ
  pub dispatched_at : Option ℕ
  pub settled_at : Option ℕ
  pub waiter_ended_at : Option ℕ
  pub stage : Stage
  pub state : RequestState
  pub outcome : Outcome
  pub result_unavailable : Option Unavailable

pub record OperationRecord : Type 0 where
  pub status : RequestStatus
  pub fingerprint : String
  pub transport_peer_id : Option String
  pub updated_at : ℕ
  pub serialized_result : Option String
  pub result_bytes : ℕ

-- The promise, its timer and its abort listener are the environment's: `Effect` and `Event`.
pub record PendingRequest : Type 0 where
  pub id : String
  pub endpoint : String
  pub data_sent : Value
  pub target_peer_id : String
  pub timestamp : ℕ
  pub claim_owner : Option String
  pub last_delivery_transport_peer_id : Option String
  pub timeout_ms : ℕ
  pub request_bytes : ℕ

pub record PendingCancellation : Type 0 where
  pub request_id : String
  pub reason : CancellationReason
  pub transport_peer_id : String
  pub created_at : ℕ
  pub claim_owner : Option String

pub record StudioPeer : Type 0 where
  pub peer_id : String
  pub transport_peer_id : String
  pub instance_id : String
  pub multiplayer_group_id : Option String
  pub role : String
  pub place_id : ℕ
  pub place_name : String
  pub place_key : Option String
  pub data_model_name : String
  pub is_running : Bool
  pub plugin_version : String
  pub plugin_variant : String
  pub server_version : String
  pub last_activity : ℕ
  pub connected_at : ℕ

pub record MultiplayerGroup : Type 0 where
  pub id : String
  pub controller_instance_id : Option String
  pub instance_ids : List String
  pub created_at : ℕ

-- `RequestFailureDetails`.
pub record FailureDetails : Type 0 where
  pub seen : Observations
  pub request_id : String
  pub target_peer_id : String
  pub stage : Stage
  pub outcome : FailureOutcome
  pub bytes : Option ℕ
  pub limit_bytes : Option ℕ
  pub transport_stage : Option TransportStage

pub record RequestFailure : Type 0 where
  pub message : String
  pub code : String
  pub details : FailureDetails

-- A rejection value: a `RequestFailure`, another `Error` (its own properties, name and message),
-- or any other value.
pub data Thrown : Type 0 where
  failure : RequestFailure → Thrown
  exception : Fields → String → String → Thrown
  other : Value → Thrown

-- What the service tells the outside, newest first: the promise of a request, its status waits,
-- and the transport that may claim again.
pub data Effect : Type 0 where
  resolve : String → Value → Effect
  reject : String → Thrown → Effect
  lifecycle : String → Effect
  available : String → Effect
  peer_registered : StudioPeer → Effect
  peer_closed : String → String → Effect

pub record Bridge : Type 0 where
  pub pending_requests : Dict PendingRequest
  pub operations : Dict OperationRecord
  -- `retainedResults` holds records of `operations`, so its keys are enough.
  pub retained_results : List String
  pub retained_result_bytes : ℕ
  pub pending_request_bytes : ℕ
  pub pending_cancellations : Dict PendingCancellation
  pub peers_by_id : Dict StudioPeer
  pub groups_by_id : Dict MultiplayerGroup
  pub delivery_owners : Dict (List String)
  pub effects : List Effect

abbrev pub empty : Bridge
empty = record {
  pending_requests = [];
  operations = [];
  retained_results = [];
  retained_result_bytes = 0;
  pending_request_bytes = 0;
  pending_cancellations = [];
  peers_by_id = [];
  groups_by_id = [];
  delivery_owners = [];
  effects = [];
}

abbrev pub no_observations : Observations
no_observations = record {
  execution_started_at = none;
  execution_completed_at = none;
  execution_outcome = none;
  connection_lost_at = none;
  connection_restored_at = none;
}

abbrev pub max_operation_id_length : ℕ
max_operation_id_length = 128

abbrev pub operation_retention_ms : ℕ
operation_retention_ms = 300000

abbrev pub stale_peer_ms : ℕ
stale_peer_ms = 30000

abbrev pub max_operation_records : ℕ
max_operation_records = 32768

abbrev pub max_retained_results : ℕ
max_retained_results = 1024

abbrev pub max_retained_result_bytes : ℕ
max_retained_result_bytes = 67108864

abbrev pub max_request_bytes : ℕ
max_request_bytes = 67108864

abbrev pub max_pending_requests : ℕ
max_pending_requests = 1024

abbrev pub max_pending_request_bytes : ℕ
max_pending_request_bytes = 67108864

abbrev pub cancellation_tombstone_ttl_ms : ℕ
cancellation_tombstone_ttl_ms = 60000

abbrev pub max_cancellation_tombstones : ℕ
max_cancellation_tombstones = 4096

abbrev pub max_outstanding_requests_per_transport : ℕ
max_outstanding_requests_per_transport = 4
