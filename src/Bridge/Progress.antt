-- ===== src/Bridge/Progress.antt =====
-- What a transport reports: `ownedOperation`, `observeTransportProgress` and
-- `settleTransportResponse` of bridge-service.ts.
use robloxstudio_mcp.Shared.{
  ℕ, String, Bool, true, false, Option, none, some, ◌&&◌, get, if◌then◌else◌, str_eq, or_else,
  first_some,
}
use robloxstudio_mcp.Json.{Value, Platform, string}
use robloxstudio_mcp.Bridge.Types.{
  Bridge, OperationRecord, ExecutionOutcome, RequestStatus, FailureOutcome, Stage, Disposition,
  Thrown, failure, other,
}
use robloxstudio_mcp.Bridge.Prune.{prune_operations}
use robloxstudio_mcp.Bridge.Waiters.{move_last}
use robloxstudio_mcp.Bridge.Settlement.{is_settled, is_complete, given_error, record_response}
use robloxstudio_mcp.Bridge.Admission.{get_peer_by_id}
use robloxstudio_mcp.Bridge.Delivery.{is_text}

abbrev carries : String → String → Bridge → Bool
carries transport peer_id s = elim (get_peer_by_id peer_id s) [
  | none ↦ false
  | some peer ↦ str_eq peer.transport_peer_id transport
]

-- `ownedOperation`: only the transport that an operation was sent to may report on it.
unfoldable pub owned_operation : ℕ → String → String → Bridge → Option OperationRecord × Bridge
owned_operation now transport id s =
    let t = prune_operations now s in
    (
      elim (get id t.operations) [
        | none ↦ none
        | some o ↦
            if is_text o.transport_peer_id transport
              && (carries transport o.status.target_peer_id t && carries transport transport t)
            then some o
            else none
      ],
      t,
    )

pub data Phase : Type 0 where
  executing response_delivery : Phase

abbrev pub phase_allowed : Phase → RequestStatus → Bool
phase_allowed phase status = if is_settled status.state then false else elim status.stage [
  | Stage.response_delivery ↦ false
  | Stage.dispatched ↦ true
  | _ ↦ elim phase [ Phase.executing ↦ false | Phase.response_delivery ↦ true ]
]

unfoldable pub progressed : ℕ → Phase → Option ExecutionOutcome → OperationRecord → OperationRecord
progressed now Phase.executing outcome o = record o {
  status = record (o.status) {
    stage = Stage.executing;
    seen = record (o.status.seen) { execution_started_at = some now };
  };
  updated_at = now;
}
progressed now Phase.response_delivery outcome o = record o {
  status = record (o.status) {
    stage = Stage.response_delivery;
    seen = record (o.status.seen) {
      execution_outcome = some (or_else outcome ExecutionOutcome.unknown);
      execution_completed_at =
          if is_complete (or_else outcome ExecutionOutcome.unknown)
          then some now
          else o.status.seen.execution_completed_at;
    };
  };
  updated_at = now;
}

unfoldable pub observe_transport_progress :
    ℕ → String → String → Phase → Option ExecutionOutcome → Bridge → Bridge
observe_transport_progress now transport id phase outcome s =
    let (owned, t) = owned_operation now transport id s in
    elim owned [
      | none ↦ t
      | some o ↦
          if phase_allowed phase o.status
          then record t { operations = move_last id (progressed now phase outcome o) t.operations }
          else t
    ]

abbrev response_message : Thrown → String
response_message (other (string text)) = text
response_message _ = "Studio response failed"

-- The error of a response whose transport reports on the execution too.
unfoldable pub response_error : ℕ → String → OperationRecord → Thrown → ExecutionOutcome → Thrown
response_error now id o e outcome = failure (record {
  message = response_message e;
  code = "studio_response_error";
  details = record {
    seen = record (o.status.seen) {
      execution_completed_at =
          if is_complete outcome
          then first_some o.status.seen.execution_completed_at (some now)
          else none;
      execution_outcome = some outcome;
    };
    request_id = id;
    target_peer_id = o.status.target_peer_id;
    stage = Stage.response_delivery;
    outcome = elim outcome [
      | ExecutionOutcome.not_executed ↦ FailureOutcome.not_executed
      | _ ↦ FailureOutcome.unknown
    ];
    bytes = none;
    limit_bytes = none;
    transport_stage = none;
  };
})

abbrev pub wrapped_error :
    ℕ → String → OperationRecord → Option Thrown → Option ExecutionOutcome → Option Thrown
wrapped_error now id o (some e) (some outcome) = some (response_error now id o e outcome)
wrapped_error now id o error outcome = error

unfoldable pub settle_transport_response :
    Platform
    → ℕ
    → String
    → String
    → Value
    → Option Thrown
    → Option ExecutionOutcome
    → Bridge
    → Disposition × Bridge
settle_transport_response p now transport id response error outcome s =
    let (owned, t) = owned_operation now transport id s in
    elim owned [
      | none ↦ (Disposition.unknown, t)
      | some o ↦
          record_response p now id response (wrapped_error now id o (given_error error) outcome)
            outcome t
    ]
