-- ===== src/Bridge/Prune.antt =====
-- `pruneOperations` and `prunePendingCancellations` of bridge-service.ts: what is forgotten, when.
pub mod Rule
pub mod Capacity
use robloxstudio_mcp.Shared.{
  ℕ, zero, suc, ◌-◌, String, Bool, true, false, Option, none, some, List, [], ◌∷◌, ◌&&◌, Dict, get,
  has, put, remove, size, length, ltb, leb, if◌then◌else◌, str_eq,
}
use robloxstudio_mcp.Bridge.Types.{
  Bridge, OperationRecord, PendingCancellation, PendingRequest, retention_capacity, lifecycle,
  operation_retention_ms, max_operation_records, max_retained_results, max_retained_result_bytes,
  cancellation_tombstone_ttl_ms, max_cancellation_tombstones,
}

-- `retainedResults.delete(key)` and `retainedResults.set(key, record)` on the list of keys.
unfoldable pub drop_key : String → List String → List String
drop_key k [] = []
drop_key k (j ∷ ks) = let rest = drop_key k ks in if str_eq j k then rest else j ∷ rest

unfoldable pub add_key : String → List String → List String
add_key k [] = k ∷ []
add_key k (j ∷ ks) = if str_eq j k then j ∷ ks else j ∷ add_key k ks

-- The four statements that both pruning loops run on a record, its waiters' call included.
unfoldable pub forget : String → OperationRecord → Bridge → Bridge
forget id operation s = record s {
  operations = remove id s.operations;
  retained_results = drop_key id s.retained_results;
  retained_result_bytes = s.retained_result_bytes - operation.result_bytes;
  effects = lifecycle id ∷ s.effects;
}

-- The first loop: records whose retention is over, oldest first, up to the first that is younger.
unfoldable pub expire : ℕ → Dict OperationRecord → Bridge → Bridge
expire now [] s = s
expire now ((id, operation) ∷ rest) s =
    let skipped = expire now rest s in
    let forgotten = expire now rest (forget id operation s) in
    if has id s.pending_requests
    then skipped
    else if ltb (now - operation.updated_at) operation_retention_ms
    then s
    else forgotten

-- The first record with no pending request.
unfoldable pub first_idle :
    Dict PendingRequest → Dict OperationRecord → Option (String × OperationRecord)
first_idle pending [] = none
first_idle pending ((id, operation) ∷ rest) =
    if has id pending then first_idle pending rest else some (id, operation)

-- The second loop. Each round forgets one record, so the fuel is the number of records.
unfoldable pub trim : ℕ → Bridge → Bridge
trim zero s = s
trim (suc fuel) s = elim (ltb max_operation_records (size s.operations)) [
  | false ↦ s
  | true ↦ elim (first_idle s.pending_requests s.operations) [
    | none ↦ s
    | some (id, operation) ↦ trim fuel (forget id operation s)
  ]
]

abbrev pub fits : Bridge → Bool
fits s =
    leb (length s.retained_results) max_retained_results
    && leb s.retained_result_bytes max_retained_result_bytes

abbrev pub without_result : OperationRecord → OperationRecord
without_result operation = record operation {
  status = record (operation.status) {
    result_unavailable = some (record {
      reason = retention_capacity;
      bytes = some operation.result_bytes;
      limit_bytes = max_retained_result_bytes;
    });
  };
  serialized_result = none;
  result_bytes = 0;
}

-- The body of the third loop: the record stays, its result goes.
unfoldable pub drop_result : String → Bridge → Bridge
drop_result id s = elim (get id s.operations) [
  | none ↦ record s { retained_results = drop_key id s.retained_results }
  | some operation ↦ record s {
    operations = put id (without_result operation) s.operations;
    retained_results = drop_key id s.retained_results;
    retained_result_bytes = s.retained_result_bytes - operation.result_bytes;
  }
]

-- The third loop, over the keys as they stood before it.
unfoldable pub evict : List String → Bridge → Bridge
evict [] s = s
evict (id ∷ ids) s =
    let t = drop_result id s in let rest = evict ids t in if fits t then t else rest

unfoldable pub enforce_capacity : Bridge → Bridge
enforce_capacity s = if fits s then s else evict s.retained_results s

unfoldable pub prune_operations : ℕ → Bridge → Bridge
prune_operations now s =
    let t = expire now s.operations s in enforce_capacity (trim (size t.operations) t)

-- Cancellations are kept in the order of their creation.
unfoldable pub drop_expired : ℕ → Dict PendingCancellation → Dict PendingCancellation
drop_expired now [] = []
drop_expired now ((id, c) ∷ rest) =
    let later = drop_expired now rest in
    if ltb (now - c.created_at) cancellation_tombstone_ttl_ms then (id, c) ∷ rest else later

unfoldable pub drop_surplus : Dict PendingCancellation → Dict PendingCancellation
drop_surplus [] = []
drop_surplus ((id, c) ∷ rest) =
    let fewer = drop_surplus rest in
    if ltb max_cancellation_tombstones (size ((id, c) ∷ rest)) then fewer else (id, c) ∷ rest

unfoldable pub prune_cancellations : ℕ → Dict PendingCancellation → Dict PendingCancellation
prune_cancellations now m = drop_surplus (drop_expired now m)
