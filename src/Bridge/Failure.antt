-- ===== src/Bridge/Failure.antt =====
-- Failures as values: their names on the wire, `handlerOutcome`, `parseObservations` and
-- `parseFailureDetails` of bridge-service.ts.
use robloxstudio_mcp.Shared.{
  ℕ, String, Bool, true, false, Option, none, some, ◌&&◌, if◌then◌else◌, str_eq, ltb,
}
use robloxstudio_mcp.Json.{
  Value, Fields, undefined, null, boolean, number, string, object, end, field, property,
}
use robloxstudio_mcp.Bridge.Types.{
  Stage, ExecutionOutcome, FailureOutcome, TransportStage, Observations, FailureDetails, Thrown,
  failure, exception, other, queued, dispatched, executing, response_delivery, server_send,
  proxy_send, http_receive,
}

unfoldable pub stage_name : Stage → String
stage_name queued = "queued"
stage_name dispatched = "dispatched"
stage_name executing = "executing"
stage_name response_delivery = "response_delivery"

unfoldable pub execution_name : ExecutionOutcome → String
execution_name ExecutionOutcome.success = "success"
execution_name ExecutionOutcome.error = "error"
execution_name ExecutionOutcome.not_executed = "not_executed"
execution_name ExecutionOutcome.unknown = "unknown"

unfoldable pub outcome_name : FailureOutcome → String
outcome_name FailureOutcome.not_executed = "not_executed"
outcome_name FailureOutcome.unknown = "unknown"

unfoldable pub transport_name : TransportStage → String
transport_name server_send = "server_send"
transport_name proxy_send = "proxy_send"
transport_name http_receive = "http_receive"

-- `isRequestStage`, with the stage.
unfoldable pub read_stage : Value → Option Stage
read_stage (string s) =
    if str_eq s "queued"
    then some queued
    else if str_eq s "dispatched"
    then some dispatched
    else if str_eq s "executing"
    then some executing
    else if str_eq s "response_delivery"
    then some response_delivery
    else none
read_stage _ = none

-- `isExecutionOutcome`, with the outcome.
unfoldable pub read_execution : Value → Option ExecutionOutcome
read_execution (string s) =
    if str_eq s "success"
    then some ExecutionOutcome.success
    else if str_eq s "error"
    then some ExecutionOutcome.error
    else if str_eq s "not_executed"
    then some ExecutionOutcome.not_executed
    else if str_eq s "unknown"
    then some ExecutionOutcome.unknown
    else none
read_execution _ = none

unfoldable pub read_outcome : Value → Option FailureOutcome
read_outcome (string s) =
    if str_eq s "not_executed"
    then some FailureOutcome.not_executed
    else if str_eq s "unknown"
    then some FailureOutcome.unknown
    else none
read_outcome _ = none

unfoldable pub read_transport : Value → Option TransportStage
read_transport (string s) =
    if str_eq s "server_send"
    then some server_send
    else if str_eq s "proxy_send"
    then some proxy_send
    else if str_eq s "http_receive"
    then some http_receive
    else none
read_transport _ = none

abbrev read_number : Value → Option ℕ
read_number (number n) = some n
read_number _ = none

abbrev read_string : Value → Option String
read_string (string s) = some s
read_string _ = none

infixl 5 ◌>>=◌
abbrev ◌>>=◌ {ℓ κ} : {A : Type ℓ} {B : Type κ} → Option A → (A → Option B) → Option B
none >>= f = none
some a >>= f = f a

-- What `parseFailureDetails` does: throw (`parseObservations` found a bad field), return
-- undefined, or return the details.
pub data Parsed {ℓ} (A : Type ℓ) : Type ℓ where
  threw : Parsed A
  absent : Parsed A
  found : A → Parsed A

-- An observation that is absent is left out; one of the wrong type throws.
abbrev pub observed {ℓ} : {A : Type ℓ} → (Value → Option A) → Option Value → Option (Option A)
observed read none = some none
observed read (some v) = read v >>= λ a. some (some a)

-- `parseObservations`; `none` is its exception.
unfoldable pub parse_observations : Fields → Option Observations
parse_observations fs = do
  outcome ← observed read_execution (property "executionOutcome" fs)
  started ← observed read_number (property "executionStartedAt" fs)
  completed ← observed read_number (property "executionCompletedAt" fs)
  lost ← observed read_number (property "connectionLostAt" fs)
  restored ← observed read_number (property "connectionRestoredAt" fs)
  some (record {
    execution_started_at = started;
    execution_completed_at = completed;
    execution_outcome = outcome;
    connection_lost_at = lost;
    connection_restored_at = restored;
  })

-- The transport stage that a value has, if it has one.
abbrev pub transport_of : Fields → Option TransportStage
transport_of fs = property "transportStage" fs >>= read_transport

-- A rejection by the HTTP parser may leave the identity to the caller.
abbrev pub identity_field : String → String → Fields → Option String
identity_field key fallback fs = elim (property key fs) [
  | some v ↦ read_string v
  | none ↦ elim (transport_of fs) [ some http_receive ↦ some fallback | _ ↦ none ]
]

abbrev pub accept : String → String → Fields → Stage → FailureOutcome → Parsed FailureDetails
accept request_id target_peer_id fs stage outcome = elim (parse_observations fs) [
  | none ↦ threw
  | some seen ↦ found (record {
    seen = seen;
    request_id = request_id;
    target_peer_id = target_peer_id;
    stage = stage;
    outcome = outcome;
    bytes = property "bytes" fs >>= read_number;
    limit_bytes = property "limitBytes" fs >>= read_number;
    transport_stage = transport_of fs;
  })
]

abbrev pub same_text : Option String → String → Bool
same_text none t = false
same_text (some s) t = str_eq s t

unfoldable pub parse_failure_details : Value → String → String → Parsed FailureDetails
parse_failure_details (object fs) request_id target_peer_id =
    if same_text (identity_field "requestId" request_id fs) request_id
      && same_text (identity_field "targetPeerId" target_peer_id fs) target_peer_id
    then elim (property "stage" fs >>= read_stage) [
      | none ↦ absent
      | some stage ↦ elim (property "outcome" fs >>= read_outcome) [
        | none ↦ absent
        | some outcome ↦ accept request_id target_peer_id fs stage outcome
      ]
    ]
    else absent
parse_failure_details _ request_id target_peer_id = absent

-- An optional property: `JSON.stringify` leaves an undefined one out.
abbrev pub optional {ℓ} : {A : Type ℓ} → String → (A → Value) → Option A → Fields → Fields
optional key f none fs = fs
optional key f (some a) fs = field key (f a) fs

-- The details as JSON prints them. (The order of keys differs by the place that builds them.)
unfoldable pub details_value : FailureDetails → Value
details_value d = object (
    field "requestId" (string request_id) (
      field "targetPeerId" (string target_peer_id) (
        field "stage" (string (stage_name stage)) (
          field "outcome" (string (outcome_name outcome)) (
            optional "executionStartedAt" number execution_started_at (
              optional "executionCompletedAt" number execution_completed_at (
                optional "executionOutcome" (λ o. string (execution_name o)) execution_outcome
                  (optional "connectionLostAt" number connection_lost_at (
                    optional "connectionRestoredAt" number connection_restored_at (
                      optional "bytes" number bytes (
                        optional "limitBytes" number limit_bytes (
                          optional "transportStage" (λ t. string (transport_name t)) transport_stage
                            end))))))))))))
  where
    open d use {
      request_id,
      target_peer_id,
      stage,
      outcome,
      bytes,
      limit_bytes,
      transport_stage,
      seen.{
        execution_started_at, execution_completed_at, execution_outcome, connection_lost_at,
        connection_restored_at,
      },
    }

-- `error instanceof Error ? { ...error, name, message } : error`. (The first of two properties with
-- one key is the one that counts.)
unfoldable pub recorded_error : Thrown → Value
unfolding details_value
recorded_error (failure f) = object (
    field "code" (string f.code) (
      field "details" (details_value f.details)
        (field "name" (string "RequestFailure") (field "message" (string f.message) end))))
recorded_error (exception own name message) =
    object (field "name" (string name) (field "message" (string message) own))
recorded_error (other v) = v

abbrev is_error_field : Option Value → Bool
is_error_field none = false
is_error_field (some undefined) = false
is_error_field (some null) = false
is_error_field (some _) = true

abbrev is_false : Option Value → Bool
is_false (some (boolean false)) = true
is_false _ = false

abbrev reports_failed : Option Value → Bool
reports_failed (some (object fs)) = elim (property "failed" fs) [
  | some (number n) ↦ ltb 0 n
  | _ ↦ false
]
reports_failed _ = false

-- `handlerOutcome`.
unfoldable pub handler_outcome : Value → ExecutionOutcome
handler_outcome (object fs) =
    if is_error_field (property "error" fs)
    then ExecutionOutcome.error
    else if is_false (property "success" fs)
    then ExecutionOutcome.error
    else if is_false (property "ok" fs)
    then ExecutionOutcome.error
    else if reports_failed (property "summary" fs)
    then ExecutionOutcome.error
    else ExecutionOutcome.success
handler_outcome _ = ExecutionOutcome.success
