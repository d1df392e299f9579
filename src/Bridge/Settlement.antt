-- ===== src/Bridge/Settlement.antt =====
-- How a response settles an operation: `recordResponse`, `resolveRequest`, `rejectRequest`,
-- `getRequestStatus` and `canStillSettle` of bridge-service.ts.
use robloxstudio_mcp.Shared.{
  ℕ, ◌+◌, String, Bool, true, false, Option, none, some, ◌∷◌, ◌||◌, get, remove, ltb, if◌then◌else◌,
  is_some, or_else, first_some,
}
use robloxstudio_mcp.Json.{Value, Platform, undefined, object, end, field, member}
use robloxstudio_mcp.Bridge.Types.{
  Bridge, OperationRecord, RequestState, ExecutionOutcome, Outcome, RequestStatus, Disposition,
  Unavailable, Thrown, Effect, accepted, already_settled, server_send, size_limit,
  serialization_failed, response_delivery, failure, other, resolve, reject, lifecycle, available,
  max_retained_result_bytes,
}
use robloxstudio_mcp.Bridge.Failure.{handler_outcome, recorded_error}
use robloxstudio_mcp.Bridge.Prune.{prune_operations, add_key}
use robloxstudio_mcp.Bridge.Waiters.{move_last, emit, remove_pending_request}

abbrev pub is_settled : RequestState → Bool
is_settled RequestState.settled = true
is_settled _ = false

-- A failure that this server raised before anything was sent.
abbrev pub is_local_rejection : Option Thrown → Bool
is_local_rejection (some (failure f)) = elim f.details.transport_stage [
  | some server_send ↦ true
  | _ ↦ false
]
is_local_rejection _ = false

abbrev is_failed : ExecutionOutcome → Bool
is_failed ExecutionOutcome.error = true
is_failed ExecutionOutcome.not_executed = true
is_failed _ = false

abbrev pub is_complete : ExecutionOutcome → Bool
is_complete ExecutionOutcome.success = true
is_complete ExecutionOutcome.error = true
is_complete _ = false

abbrev has_succeeded : Option ExecutionOutcome → Bool
has_succeeded (some ExecutionOutcome.success) = true
has_succeeded _ = false

-- What a failed response says of the execution, where the transport says nothing.
abbrev inferred_failure : Option Thrown → Option ExecutionOutcome → ExecutionOutcome
inferred_failure error before =
    if is_local_rejection error
    then ExecutionOutcome.not_executed
    else if has_succeeded before
    then ExecutionOutcome.success
    else ExecutionOutcome.error

-- `completedOutcome`.
unfoldable pub completed_outcome :
    Value → Option Thrown → Option ExecutionOutcome → Option ExecutionOutcome → ExecutionOutcome
completed_outcome response error (some ExecutionOutcome.unknown) before = ExecutionOutcome.unknown
completed_outcome response error (some ExecutionOutcome.not_executed) before =
    ExecutionOutcome.not_executed
completed_outcome response none reported before = elim (handler_outcome response) [
  | ExecutionOutcome.error ↦ ExecutionOutcome.error
  | inferred ↦ or_else reported inferred
]
completed_outcome response (some e) reported before =
    or_else reported (inferred_failure (some e) before)

unfoldable pub settled_outcome : Value → Option Thrown → ExecutionOutcome → Outcome
settled_outcome response error completed =
    if is_some error || is_failed (handler_outcome response) || is_failed completed
    then Outcome.error
    else Outcome.success

-- What a settlement writes to the status of an operation.
unfoldable pub settled_status :
    ℕ → Value → Option Thrown → ExecutionOutcome → RequestStatus → RequestStatus
settled_status now response error completed status =
    let is_local = is_local_rejection error in
    record status {
      seen = record (status.seen) {
        execution_outcome = some completed;
        execution_completed_at =
            if is_local
            then status.seen.execution_completed_at
            else if is_complete completed
            then first_some status.seen.execution_completed_at (some now)
            else none;
      };
      state = RequestState.settled;
      outcome = settled_outcome response error completed;
      stage = if is_local then status.stage else response_delivery;
      settled_at = some now;
    }

abbrev pub result_value : Value → Option Thrown → Value
result_value response none = object (field "response" response end)
result_value response (some e) = object (field "error" (recorded_error e) end)

abbrev with_unavailable : Unavailable → OperationRecord → OperationRecord
with_unavailable u operation = record operation {
  status = record (operation.status) { result_unavailable = some u };
}

-- The `try` block: the operation with its result, and the bytes to retain, if any.
unfoldable pub retain_result :
    Platform → Value → Option Thrown → OperationRecord → OperationRecord × Option ℕ
retain_result p response error operation = elim (p.stringify (result_value response error)) [
  | none ↦ (
    with_unavailable
        (record {
          reason = serialization_failed;
          bytes = none;
          limit_bytes = max_retained_result_bytes;
        })
        operation,
    none,
  )
  | some text ↦
      if ltb max_retained_result_bytes (p.byte_length text)
      then (
        with_unavailable
            (record {
              reason = size_limit;
              bytes = some (p.byte_length text);
              limit_bytes = max_retained_result_bytes;
            })
            operation,
        none,
      )
      else (
        record operation { serialized_result = some text; result_bytes = p.byte_length text },
        some (p.byte_length text),
      )
]

unfoldable pub store_result : String → OperationRecord × Option ℕ → Bridge → Bridge
store_result id (operation, none) s = record s { operations = move_last id operation s.operations }
store_result id (operation, some bytes) s = record s {
  operations = move_last id operation s.operations;
  retained_results = add_key id s.retained_results;
  retained_result_bytes = s.retained_result_bytes + bytes;
}

abbrev pub answer : String → Value → Option Thrown → Effect
answer id response none = resolve id response
answer id response (some e) = reject id e

-- The promise of a request that still waits is settled, once.
unfoldable pub answer_waiter : String → Value → Option Thrown → Bridge → Bridge
answer_waiter id response error s = elim (get id s.pending_requests) [
  | none ↦ s
  | some r ↦ emit (answer id response error) (remove_pending_request r s)
]

abbrev pub announce : Option String → Bridge → Bridge
announce none s = s
announce (some transport) s = emit (available transport) s

-- The body of `recordResponse` for an operation that is not settled yet, up to its pruning.
unfoldable pub settle_open :
    Platform
    → ℕ
    → String
    → OperationRecord
    → Value
    → Option Thrown
    → Option ExecutionOutcome
    → Bridge
    → Bridge
settle_open p now id operation response error reported s =
    let completed =
      completed_outcome response error reported operation.status.seen.execution_outcome in
    let written : OperationRecord = record operation {
      status = settled_status now response error completed operation.status;
      updated_at = now;
    } in
    let t = store_result id (retain_result p response error written) s in
    let u = answer_waiter id response error t in
    record u {
      pending_cancellations = remove id u.pending_cancellations;
      effects = lifecycle id ∷ u.effects;
    }

unfoldable pub settle :
    Platform
    → ℕ
    → String
    → OperationRecord
    → Value
    → Option Thrown
    → Option ExecutionOutcome
    → Bridge
    → Bridge
settle p now id operation response error reported s =
    announce operation.transport_peer_id
      (prune_operations now (settle_open p now id operation response error reported s))

-- `undefined` that is thrown is no error for `error !== undefined`.
unfoldable pub given_error : Option Thrown → Option Thrown
given_error (some (other undefined)) = none
given_error error = error

unfoldable pub record_response :
    Platform
    → ℕ
    → String
    → Value
    → Option Thrown
    → Option ExecutionOutcome
    → Bridge
    → Disposition × Bridge
record_response p now id response error reported s =
    let t = prune_operations now s in
    elim (get id t.operations) [
      | none ↦ (Disposition.unknown, t)
      | some operation ↦
          if is_settled operation.status.state
          then (already_settled, t)
          else (accepted, settle p now id operation response (given_error error) reported t)
    ]

unfoldable pub resolve_request : Platform → ℕ → String → Value → Bridge → Disposition × Bridge
resolve_request p now id response s = record_response p now id response none none s

unfoldable pub reject_request : Platform → ℕ → String → Thrown → Bridge → Disposition × Bridge
reject_request p now id e s = record_response p now id undefined (some e) none s

-- The copy of a status that callers get, with its retained result.
pub record Report : Type 0 where
  pub status : RequestStatus
  pub response : Option Value
  pub error : Option Value

unfoldable pub report : Platform → OperationRecord → Report
report p operation = elim operation.serialized_result [
  | none ↦ record { status = operation.status; response = none; error = none }
  | some text ↦ record {
    status = operation.status;
    response = member "response" (p.parse text);
    error = member "error" (p.parse text);
  }
]

unfoldable pub get_request_status : Platform → ℕ → String → Bridge → Option Report × Bridge
get_request_status p now id s =
    let t = prune_operations now s in
    (elim (get id t.operations) [ none ↦ none | some operation ↦ some (report p operation) ], t)

unfoldable pub can_still_settle : ℕ → String → Bridge → Bool × Bridge
can_still_settle now id s =
    let t = prune_operations now s in
    (
      elim (get id t.operations) [
        | none ↦ false
        | some operation ↦ elim operation.status.state [
          | RequestState.settled ↦ false
          | RequestState.pending ↦ true
          | _ ↦ is_some operation.transport_peer_id
        ]
      ],
      t,
    )
