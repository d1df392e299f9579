-- ===== src/Bridge/Invariant.antt =====
-- The bookkeeping of bridge-service.ts: what holds of the request queue, the operation records and
-- the retained results between two calls.
pub mod Pruning
pub mod Ending
pub mod Settling
pub mod Admitting
pub mod Delivering
pub mod Reporting
pub mod Leaving
pub mod Histories
use robloxstudio_mcp.Shared.{
  ℕ, ◌≤◌, ◌≡◌, String, Bool, true, false, Option, none, some, List, [], ◌∷◌, get, has, size, total,
  Distinct, if◌then◌else◌, str_eq, any,
}
use robloxstudio_mcp.Bridge.Types.{
  Bridge, OperationRecord, PendingRequest, RequestState, max_pending_requests,
  max_pending_request_bytes,
}
use robloxstudio_mcp.Bridge.Settlement.{is_settled}

abbrev pub has_key : String → List String → Bool
has_key k keys = any (λ j. str_eq j k) keys

abbrev pub is_waiting : RequestState → Bool
is_waiting RequestState.pending = true
is_waiting _ = false

abbrev pub waits : Option OperationRecord → Bool
waits none = false
waits (some o) = is_waiting o.status.state

abbrev pub request_bytes_of : PendingRequest → ℕ
request_bytes_of r = r.request_bytes

abbrev pub result_bytes_of : OperationRecord → ℕ
result_bytes_of o = o.result_bytes

pub record Inv (s : Bridge) : Type 0 where
  pub pending_distinct : Distinct s.pending_requests
  pub operations_distinct : Distinct s.operations
  -- A request stands under its own identifier.
  pub named : (id : String) (r : PendingRequest) → get id s.pending_requests ≡ some r → r.id ≡ id
  -- A request waits exactly while its operation is pending.
  pub linked : (id : String) → has id s.pending_requests ≡ waits (get id s.operations)
  -- The two running totals are the sums that they stand for.
  pub pending_total : s.pending_request_bytes ≡ total request_bytes_of s.pending_requests
  pub retained_total : s.retained_result_bytes ≡ total result_bytes_of s.operations
  -- Only retained results are counted, and only settled operations have one.
  pub kept :
      (id : String) (o : OperationRecord)
      → get id s.operations ≡ some o
      → has_key id s.retained_results ≡ false
      → o.result_bytes ≡ 0
  pub unsettled :
      (id : String) (o : OperationRecord)
      → get id s.operations ≡ some o
      → is_settled o.status.state ≡ false
      → o.result_bytes ≡ 0
  pub requests_bounded : size s.pending_requests ≤ max_pending_requests
  pub bytes_bounded : s.pending_request_bytes ≤ max_pending_request_bytes
