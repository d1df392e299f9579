-- ===== src/Bridge/Invariant/Admitting.antt =====
-- Admission keeps the bookkeeping, and both limits of the queue with it.
use robloxstudio_mcp.Shared.{
  ℕ, ◌+◌, ◌≡◌, ◌≤◌, ◌<◌, ◌||◌, String, none, get, size, put, eq_iff, arith, get-put, put-Distinct,
  total-put_new, size-put_new, Option-cases, Bool-cases, inl, inr, ltb, leb, or_else, max,
}
use robloxstudio_mcp.Json.{Platform}
use robloxstudio_mcp.Bridge.Types.{
  Bridge, OperationRecord, max_request_bytes, max_pending_requests, max_pending_request_bytes,
}
use robloxstudio_mcp.Bridge.Prune.{prune_operations}
use robloxstudio_mcp.Bridge.Waiters.{fire_abort}
use robloxstudio_mcp.Bridge.Settlement.{get_request_status}
use robloxstudio_mcp.Bridge.Admission.{
  Call, new_request, new_operation, announce_request, enqueue, rejoin, admit_new, admit_sized,
  admit_request, get_peer_by_id, operation_fingerprint, request_size, is_valid_operation_id,
}
use robloxstudio_mcp.Bridge.Invariant.{Inv, result_bytes_of, request_bytes_of}
use robloxstudio_mcp.Bridge.Invariant.Pruning.{prune-Inv}
use robloxstudio_mcp.Bridge.Invariant.Ending.{Inv-frame, end_request_waiter-Inv}

announce_request-Inv :
    (id target : String) (s : Bridge) → Inv s → Inv (announce_request id target s)
unfolding announce_request
announce_request-Inv id target s v =
    Inv-frame s (announce_request id target s) (ground arith) (ground arith) (ground arith)
      (ground arith) (ground arith) v

-- A new request with its record, within the limits.
added-Inv :
    (now : ℕ) (id : String) (timeout_ms bytes : ℕ) (fingerprint : String) (c : Call) (s : Bridge)
    → Inv s
    → get id s.operations ≡ none
    → size s.pending_requests < max_pending_requests
    → s.pending_request_bytes + bytes ≤ max_pending_request_bytes
    → Inv (record s {
      pending_requests = put id (new_request now id timeout_ms bytes c) s.pending_requests;
      pending_request_bytes = s.pending_request_bytes + bytes;
      operations = put id (new_operation now id c.target_peer_id fingerprint) s.operations;
    })
added-Inv now id timeout_ms bytes fingerprint c s v e room small =
    let r = new_request now id timeout_ms bytes c in
    let o = new_operation now id c.target_peer_id fingerprint in
    let free : get id s.pending_requests ≡ none = ground (arith, v.linked id) in
    record {
      pending_distinct = put-Distinct id r s.pending_requests v.pending_distinct;
      operations_distinct = put-Distinct id o s.operations v.operations_distinct;
      named = λ j q g. ground (arith, v.named j q, get-put id j r s.pending_requests, eq_iff id j);
      linked = λ j. ground (
        arith,
        v.linked j,
        get-put id j r s.pending_requests,
        get-put id j o s.operations,
        eq_iff id j,
      );
      pending_total =
          omega
            (arith, v.pending_total, total-put_new request_bytes_of id r s.pending_requests free);
      retained_total =
          omega (arith, v.retained_total, total-put_new result_bytes_of id o s.operations e);
      kept = λ j q g k. ground (arith, v.kept j q, get-put id j o s.operations, eq_iff id j);
      unsettled =
          λ j q g k. ground (arith, v.unsettled j q, get-put id j o s.operations, eq_iff id j);
      requests_bounded = omega (arith, size-put_new id r s.pending_requests free);
      bytes_bounded = small;
    }

enqueue-Inv :
    (now : ℕ) (id : String) (timeout_ms bytes : ℕ) (fingerprint : String) (c : Call) (s : Bridge)
    → Inv s
    → get id s.operations ≡ none
    → size s.pending_requests < max_pending_requests
    → s.pending_request_bytes + bytes ≤ max_pending_request_bytes
    → Inv (enqueue now id timeout_ms bytes fingerprint c s)
unfolding enqueue fire_abort
enqueue-Inv now id timeout_ms bytes fingerprint c s v e room small =
    let w = prune-Inv now _ (added-Inv now id timeout_ms bytes fingerprint c s v e room small) in
    announce_request-Inv id c.target_peer_id _ (elim (Bool-cases c.aborted_after) [
      | inl f ↦ rw f (end_request_waiter-Inv now _ _ id _ w)
      | inr f ↦ rw f w
    ])

admit_new-Inv :
    (now : ℕ) (id : String) (timeout_ms bytes : ℕ) (fingerprint : String) (c : Call) (s : Bridge)
    → Inv s
    → get id s.operations ≡ none
    → Inv (admit_new now id timeout_ms bytes fingerprint c s).1
unfolding admit_new
admit_new-Inv now id timeout_ms bytes fingerprint c s v e =
    elim (Bool-cases (ltb max_request_bytes bytes)) [
      | inl big ↦ rw (big, admit_new) v
      | inr fit ↦
          elim (Bool-cases (
            leb max_pending_requests (size s.pending_requests)
            || ltb max_pending_request_bytes (s.pending_request_bytes + bytes))) [
              | inl full ↦ rw (fit, admit_new, full) v
              | inr room ↦
                  rw (fit, admit_new, room)
                    (enqueue-Inv now id timeout_ms bytes fingerprint c s v e (ground arith)
                      (ground arith))
            ]
    ]

pub get_request_status-Inv :
    (p : Platform) (now : ℕ) (id : String) (s : Bridge)
    → Inv s
    → Inv (get_request_status p now id s).1
unfolding get_request_status
get_request_status-Inv p now id s v = prune-Inv now s v

rejoin-Inv :
    (p : Platform) (now : ℕ) (id fingerprint : String) (o : OperationRecord) (s : Bridge)
    → Inv s
    → Inv (rejoin p now id fingerprint o s).1
unfolding rejoin
rejoin-Inv p now id fingerprint o s v = ground (arith, get_request_status-Inv p now id s v)

admit_sized-Inv :
    (p : Platform) (now : ℕ) (id : String) (timeout_ms bytes : ℕ) (fingerprint : String) (c : Call)
    (s : Bridge)
    → Inv s
    → Inv (admit_sized p now id timeout_ms bytes fingerprint c s).1
unfolding admit_sized
admit_sized-Inv p now id timeout_ms bytes fingerprint c s v =
    let w = prune-Inv now s v in
    elim (Option-cases (get id (prune_operations now s).operations)) [
      | inl e ↦ rw (e, admit_sized) (admit_new-Inv now id timeout_ms bytes fingerprint c _ w e)
      | inr (o, e) ↦ rw (e, admit_sized) (rejoin-Inv p now id fingerprint o _ w)
    ]

pub admit_request-Inv :
    (p : Platform) (now : ℕ) (c : Call) (s : Bridge) → Inv s → Inv (admit_request p now c s).1
unfolding admit_request
admit_request-Inv p now c s v =
    let id = or_else c.operation_id c.uuid in
    elim (Bool-cases (is_valid_operation_id id)) [
      | inr bad ↦ rw (bad, admit_request) v
      | inl good ↦ elim (Bool-cases c.aborted_before) [
        | inl gone ↦ rw (good, admit_request, gone) v
        | inr live ↦
            elim (Option-cases
              (operation_fingerprint p c.target_peer_id c.endpoint c.data_sent c.identity)) [
                | inl e ↦ rw (good, admit_request, live, e) v
                | inr (fingerprint, e) ↦
                    elim (Option-cases (
                      request_size p id c.target_peer_id (get_peer_by_id c.target_peer_id s)
                        c.endpoint c.data_sent (max 1 c.timeout_ms))) [
                          | inl f ↦ rw (good, admit_request, live, e, f) v
                          | inr (bytes, f) ↦
                              rw (good, admit_request, live, e, f)
                                (admit_sized-Inv p now id (max 1 c.timeout_ms) bytes fingerprint c s
                                  v)
                        ]
              ]
      ]
    ]
