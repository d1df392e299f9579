-- ===== src/Bridge/Admission/Retries.antt =====
-- Retries: an identifier that names an operation never enters the queue a second time.
use robloxstudio_mcp.Shared.{
  ℕ, ◌≡◌, ◌∙◌, refl, String, some, get, arith, Option-cases, Bool-cases, inl, inr, or_else, max,
}
use robloxstudio_mcp.Json.{Platform}
use robloxstudio_mcp.Bridge.Types.{Bridge, OperationRecord}
use robloxstudio_mcp.Bridge.Prune.{prune_operations, forget, drop_result}
use robloxstudio_mcp.Bridge.Prune.Rule.{prune_rule}
use robloxstudio_mcp.Bridge.Settlement.{get_request_status}
use robloxstudio_mcp.Bridge.Admission.{
  is_valid_operation_id, operation_fingerprint, request_size, get_peer_by_id, Call, rejoin,
  admit_sized, admit_request,
}
use robloxstudio_mcp.Bridge.Invariant.{Inv}
use robloxstudio_mcp.Bridge.Invariant.Pruning.{forget-Inv, drop_result-Inv, prune-Inv}

drop_result-pending :
    (k : String) (s : Bridge) → (drop_result k s).pending_requests ≡ s.pending_requests
unfolding drop_result
drop_result-pending k s = ground arith

pub prune-pending :
    (now : ℕ) (s : Bridge) → Inv s → (prune_operations now s).pending_requests ≡ s.pending_requests
prune-pending now s v =
    (prune_rule (λ t. Inv t × (t.pending_requests ≡ s.pending_requests))
      (λ t h. h.0.operations_distinct)
      (λ k o t h e i. (forget-Inv k o t h.0 e i, unfold forget in h.1))
      (λ k t h. (drop_result-Inv k t h.0, drop_result-pending k t ∙ h.1)) now s (v, refl)).1

rejoin-pending :
    (p : Platform) (now : ℕ) (id fingerprint : String) (o : OperationRecord) (s : Bridge)
    → Inv s
    → (rejoin p now id fingerprint o s).1.pending_requests ≡ s.pending_requests
unfolding rejoin get_request_status
rejoin-pending p now id fingerprint o s v = ground (arith, prune-pending now s v)

sized-pending :
    (p : Platform) (now : ℕ) (id : String) (timeout_ms bytes : ℕ) (fingerprint : String) (c : Call)
    (o : OperationRecord) (s : Bridge)
    → Inv s
    → get id (prune_operations now s).operations ≡ some o
    → (admit_sized p now id timeout_ms bytes fingerprint c s).1.pending_requests
      ≡ s.pending_requests
unfolding admit_sized
sized-pending p now id timeout_ms bytes fingerprint c o s v e =
    rw (e, admit_sized)
      (rejoin-pending p now id fingerprint o _ (prune-Inv now s v) ∙ prune-pending now s v)

-- Where the invariant holds and an operation is remembered once expired records are pruned,
-- admitting any call under its identifier, whatever the payload, leaves the queue as it was.
pub admit_known :
    (p : Platform) (now : ℕ) (c : Call) (o : OperationRecord) (s : Bridge)
    → Inv s
    → get (or_else c.operation_id c.uuid) (prune_operations now s).operations ≡ some o
    → (admit_request p now c s).1.pending_requests ≡ s.pending_requests
unfolding admit_request
admit_known p now c o s v e =
    elim (Bool-cases (is_valid_operation_id (or_else c.operation_id c.uuid))) [
      | inr bad ↦ rw (bad, admit_request) refl
      | inl good ↦ elim (Bool-cases c.aborted_before) [
        | inl gone ↦ rw (good, gone, admit_request) refl
        | inr live ↦
            elim (Option-cases
              (operation_fingerprint p c.target_peer_id c.endpoint c.data_sent c.identity)) [
                | inl f ↦ rw (good, live, f, admit_request) refl
                | inr (print, f) ↦
                    elim (Option-cases (
                      request_size p (or_else c.operation_id c.uuid) c.target_peer_id
                        (get_peer_by_id c.target_peer_id s) c.endpoint c.data_sent
                        (max 1 c.timeout_ms))) [
                          | inl g ↦ rw (good, live, f, g, admit_request) refl
                          | inr (bytes, g) ↦
                              rw (good, live, f, g, admit_request)
                                (sized-pending p now (or_else c.operation_id c.uuid)
                                  (max 1 c.timeout_ms) bytes print c o s v e)
                        ]
              ]
      ]
    ]
