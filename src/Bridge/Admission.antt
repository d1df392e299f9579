-- ===== src/Bridge/Admission.antt =====
-- How a request enters: `admitRequest` and `isValidOperationId` of bridge-service.ts.
pub mod Retries
use robloxstudio_mcp.Shared.{
  ℕ, ◌+◌, String, Bool, Option, none, some, ◌||◌, ◌&&◌, get, has, put, size, values, find, ltb, leb,
  if◌then◌else◌, str_eq, or_else, max, utf16_length, has_visible,
}
use robloxstudio_mcp.Json.{
  Value, Fields, Platform, undefined, null, number, string, object, end, field,
}
use robloxstudio_mcp.Bridge.Types.{
  Bridge, OperationRecord, PendingRequest, RequestFailure, RequestState, ExecutionOutcome, Outcome,
  StudioPeer, queued, available, no_observations, max_operation_id_length, max_request_bytes,
  max_pending_requests, max_pending_request_bytes,
}
use robloxstudio_mcp.Bridge.Prune.{prune_operations}
use robloxstudio_mcp.Bridge.Waiters.{emit, fire_abort}
use robloxstudio_mcp.Bridge.Settlement.{Report, get_request_status}
use robloxstudio_mcp.Bridge.Refusals.{
  operation_collision, invalid_id, already_aborted, unserializable, too_large, over_capacity,
}

-- `getPeerById`.
unfoldable pub get_peer_by_id : String → Bridge → Option StudioPeer
get_peer_by_id id s = find (λ peer. str_eq peer.peer_id id) (values s.peers_by_id)

-- `isValidOperationId`, on a string.
abbrev pub is_valid_operation_id : String → Bool
is_valid_operation_id id = has_visible id && leb (utf16_length id) max_operation_id_length

abbrev identity_fields : Value → Value → Fields
identity_fields data_sent undefined = field "data" data_sent end
identity_fields data_sent identity = field "identity" identity end

-- `operationFingerprint`; `none` where `JSON.stringify` throws.
unfoldable pub operation_fingerprint : Platform → String → String → Value → Value → Option String
operation_fingerprint p target_peer_id endpoint data_sent identity =
    elim (p.stringify (
      object (
        field "targetPeerId" (string target_peer_id)
          (field "endpoint" (string endpoint) (identity_fields data_sent identity))))) [
            | none ↦ none
            | some text ↦ some (p.sha256 text)
          ]

abbrev role_value : Option StudioPeer → Value
role_value none = undefined
role_value (some peer) = string peer.role

abbrev or_null : Value → Value
or_null undefined = null
or_null v = v

-- The bytes of the request on the wire; `none` where `JSON.stringify` throws.
unfoldable pub request_size :
    Platform → String → String → Option StudioPeer → String → Value → ℕ → Option ℕ
request_size p id target_peer_id target endpoint data_sent remaining_ms =
    elim (p.stringify (
      object (
        field "kind" (string "request") (
          field "requestId" (string id) (
            field "peerId" (string target_peer_id) (
              field "target" (role_value target) (
                field "endpoint" (string endpoint) (
                  field "data" (or_null data_sent)
                    (field "remainingMs" (number remaining_ms) end))))))))) [
                      | none ↦ none
                      | some text ↦ some (p.byte_length text)
                    ]

-- The arguments of one `admitRequest`: `uuid` is what `randomUUID` gives; the signal is read when
-- the call starts and once more after its listener is added.
pub record Call : Type 0 where
  pub endpoint : String
  pub data_sent : Value
  pub target_peer_id : String
  pub timeout_ms : ℕ
  pub aborted_before : Bool
  pub aborted_after : Bool
  pub operation_id : Option String
  pub uuid : String
  pub identity : Value

pub data Admission : Type 0 where
  rejected : RequestFailure → Admission
  waiting : String → Admission
  retained : String → Option Report → Admission

abbrev pub new_request : ℕ → String → ℕ → ℕ → Call → PendingRequest
new_request now id timeout_ms bytes c = record {
  id = id;
  endpoint = c.endpoint;
  data_sent = c.data_sent;
  target_peer_id = c.target_peer_id;
  timestamp = now;
  claim_owner = none;
  last_delivery_transport_peer_id = none;
  timeout_ms = timeout_ms;
  request_bytes = bytes;
}

abbrev pub new_operation : ℕ → String → String → String → OperationRecord
new_operation now id target_peer_id fingerprint = record {
  status = record {
    seen = record no_observations { execution_outcome = some ExecutionOutcome.unknown };
    request_id = id;
    target_peer_id = target_peer_id;
    queued_at = now;
    dispatched_at = none;
    settled_at = none;
    waiter_ended_at = none;
    stage = queued;
    state = RequestState.pending;
    outcome = Outcome.pending;
    result_unavailable = none;
  };
  fingerprint = fingerprint;
  transport_peer_id = none;
  updated_at = now;
  serialized_result = none;
  result_bytes = 0;
}

-- The last statement of `admitRequest`: tell the target's transport.
unfoldable pub announce_request : String → String → Bridge → Bridge
announce_request id target_peer_id s =
    if has id s.pending_requests
    then elim (get_peer_by_id target_peer_id s) [
      | none ↦ s
      | some peer ↦ emit (available peer.transport_peer_id) s
    ]
    else s

-- The rest of `admitRequest` once every check has passed.
unfoldable pub enqueue : ℕ → String → ℕ → ℕ → String → Call → Bridge → Bridge
enqueue now id timeout_ms bytes fingerprint c s =
    let t : Bridge = record s {
      pending_requests = put id (new_request now id timeout_ms bytes c) s.pending_requests;
      pending_request_bytes = s.pending_request_bytes + bytes;
      operations = put id (new_operation now id c.target_peer_id fingerprint) s.operations;
    } in
    let u = prune_operations now t in
    let v = if c.aborted_after then fire_abort now id u else u in
    announce_request id c.target_peer_id v

abbrev retained_reply : String → Option Report × Bridge → Admission × Bridge
retained_reply id (status, t) = (retained id status, t)

-- `admitRequest` for an identifier that names an operation already.
unfoldable pub rejoin :
    Platform → ℕ → String → String → OperationRecord → Bridge → Admission × Bridge
rejoin p now id fingerprint existing s =
    if str_eq existing.fingerprint fingerprint
    then if has id s.pending_requests
      then (waiting id, s)
      else retained_reply id (get_request_status p now id s)
    else (rejected (operation_collision id existing), s)

-- `admitRequest` for a new identifier: the limits, then the queue.
unfoldable pub admit_new : ℕ → String → ℕ → ℕ → String → Call → Bridge → Admission × Bridge
admit_new now id timeout_ms bytes fingerprint c s =
    if ltb max_request_bytes bytes
    then (rejected (too_large id c.target_peer_id bytes), s)
    else if leb max_pending_requests (size s.pending_requests)
        || ltb max_pending_request_bytes (s.pending_request_bytes + bytes)
    then (
      rejected (
          over_capacity id c.target_peer_id (size s.pending_requests)
            (s.pending_request_bytes + bytes)),
      s,
    )
    else (waiting id, enqueue now id timeout_ms bytes fingerprint c s)

unfoldable pub admit_sized :
    Platform → ℕ → String → ℕ → ℕ → String → Call → Bridge → Admission × Bridge
admit_sized p now id timeout_ms bytes fingerprint c s =
    let t = prune_operations now s in
    elim (get id t.operations) [
      | none ↦ admit_new now id timeout_ms bytes fingerprint c t
      | some existing ↦ rejoin p now id fingerprint existing t
    ]

unfoldable pub admit_request : Platform → ℕ → Call → Bridge → Admission × Bridge
admit_request p now c s =
    let id = or_else c.operation_id c.uuid in
    let timeout_ms = max 1 c.timeout_ms in
    if is_valid_operation_id id
    then if c.aborted_before
      then (rejected (already_aborted id c.target_peer_id), s)
      else elim (operation_fingerprint p c.target_peer_id c.endpoint c.data_sent c.identity) [
        | none ↦ (rejected (unserializable id c.target_peer_id), s)
        | some fingerprint ↦
            elim (request_size p id c.target_peer_id (get_peer_by_id c.target_peer_id s) c.endpoint
              c.data_sent timeout_ms) [
                | none ↦ (rejected (unserializable id c.target_peer_id), s)
                | some bytes ↦ admit_sized p now id timeout_ms bytes fingerprint c s
              ]
      ]
    else (rejected (invalid_id id c.target_peer_id), s)
