-- ===== src/Bridge/Invariant/Ending.antt =====
-- The end of a waiter keeps the bookkeeping.
use robloxstudio_mcp.Shared.{
  ℕ, ◌+◌, ◌≡◌, refl, sym, subst, String, Option, none, some, [], ◌∷◌, get, total, remove, Distinct,
  Dict, if◌then◌else◌, str_eq, eq_iff, arith, get-put, get-remove, put-Distinct, remove-Distinct,
  total-put_new, total-remove, size-remove-le, Option-cases, Bool-cases, inl, inr, leb, ◌-◌,
}
use robloxstudio_mcp.Bridge.Types.{
  Bridge, OperationRecord, PendingRequest, CancellationReason, Stage, FailureOutcome, Effect,
}
use robloxstudio_mcp.Bridge.Waiters.{
  Ending, move_last, emit, remove_pending_request, ended, end_operation, notify_request_cancelled,
  notify_end, end_pending, end_request_waiter, fire_timeout, end_overdue, end_all,
  cleanup_old_requests, clear_all_pending_requests, stage_at_end, outcome_at_end,
}
use robloxstudio_mcp.Bridge.Invariant.{Inv, result_bytes_of, request_bytes_of}
use robloxstudio_mcp.Bridge.Invariant.Pruning.{prune-Inv}

pub get-move_last {ℓ} :
    {V : Type ℓ} (k j : String) (v : V) (m : Dict V)
    → get j (move_last k v m) ≡ (if str_eq k j then some v else get j m)
get-move_last k j v m = ground (arith, get-put k j v (remove k m), get-remove k j m)

pub move_last-Distinct {ℓ} :
    {V : Type ℓ} (k : String) (v : V) (m : Dict V) → Distinct m → Distinct (move_last k v m)
move_last-Distinct k v m d = put-Distinct k v (remove k m) (remove-Distinct k m d)

pub total-move_last {ℓ} :
    {V : Type ℓ} (f : V → ℕ) (k : String) (v w : V) (m : Dict V)
    → Distinct m
    → get k m ≡ some w
    → total f (move_last k v m) + f w ≡ total f m + f v
total-move_last f k v w m d e = omega (
  arith,
  total-put_new f k v (remove k m) (ground (arith, get-remove k k m, eq_iff k k)),
  total-remove f k w m d e,
)

-- The fields that the invariant does not read may change.
pub Inv-frame :
    (s t : Bridge)
    → t.pending_requests ≡ s.pending_requests
    → t.operations ≡ s.operations
    → t.retained_results ≡ s.retained_results
    → t.retained_result_bytes ≡ s.retained_result_bytes
    → t.pending_request_bytes ≡ s.pending_request_bytes
    → Inv s
    → Inv t
Inv-frame s t a b c d e v = record {
  pending_distinct = rw a v.pending_distinct;
  operations_distinct = rw b v.operations_distinct;
  named = rw a v.named;
  linked = rw (a, b) v.linked;
  pending_total = rw (a, e) v.pending_total;
  retained_total = rw (b, d) v.retained_total;
  kept = rw (b, c) v.kept;
  unsettled = rw b v.unsettled;
  requests_bounded = rw a v.requests_bounded;
  bytes_bounded = rw e v.bytes_bounded;
}

-- Removing a request and ending its operation are one step of the bookkeeping.
module _ (now : ℕ) (ending : Ending) (stage : Stage) (outcome : FailureOutcome) where
  pub retire-Inv :
      (r : PendingRequest) (o : OperationRecord) (s : Bridge)
      → Inv s
      → get r.id s.pending_requests ≡ some r
      → get r.id s.operations ≡ some o
      → Inv (end_operation now ending r.id stage outcome (some o) (remove_pending_request r s))
  unfolding end_operation remove_pending_request ended
  retire-Inv r o s v e f =
      let o' = ended now ending stage outcome o in
      record {
        pending_distinct = remove-Distinct r.id s.pending_requests v.pending_distinct;
        operations_distinct = move_last-Distinct r.id o' s.operations v.operations_distinct;
        named = λ j q g.
            ground (arith, v.named j q, get-remove r.id j s.pending_requests, eq_iff r.id j);
        linked = λ j. ground (
          arith,
          v.linked j,
          get-remove r.id j s.pending_requests,
          get-move_last r.id j o' s.operations,
          eq_iff r.id j,
        );
        pending_total = omega (
          arith,
          v.pending_total,
          total-remove request_bytes_of r.id r s.pending_requests v.pending_distinct e,
        );
        retained_total = omega (
          arith,
          v.retained_total,
          total-move_last result_bytes_of r.id o' o s.operations v.operations_distinct f,
        );
        kept = λ j w g k.
            ground (
              arith,
              v.kept j w,
              v.kept r.id o,
              get-move_last r.id j o' s.operations,
              eq_iff r.id j,
            );
        unsettled = λ j w g k. ground (
          arith,
          v.unsettled j w,
          v.unsettled r.id o,
          v.linked r.id,
          get-move_last r.id j o' s.operations,
          eq_iff r.id j,
        );
        requests_bounded =
            omega (arith, v.requests_bounded, size-remove-le r.id s.pending_requests);
        bytes_bounded = omega (arith, v.bytes_bounded);
      }

pub notify_request_cancelled-Inv :
    (now : ℕ) (r : PendingRequest) (reason : CancellationReason) (s : Bridge)
    → Inv s
    → Inv (notify_request_cancelled now r reason s)
unfolding notify_request_cancelled
notify_request_cancelled-Inv now r reason s v =
    Inv-frame s (notify_request_cancelled now r reason s) (ground arith) (ground arith)
      (ground arith) (ground arith) (ground arith) v

pub notify_end-Inv :
    (now : ℕ) (r : PendingRequest) (ending : Ending) (s : Bridge)
    → Inv s
    → Inv (notify_end now r ending s)
unfolding notify_end
notify_end-Inv now r Ending.disconnected s v = v
notify_end-Inv now r Ending.timed_out s v = notify_request_cancelled-Inv now r _ s v
notify_end-Inv now r Ending.aborted s v = notify_request_cancelled-Inv now r _ s v

pub Inv-emit : (e : Effect) (s : Bridge) → Inv s → Inv (emit e s)
Inv-emit e s v = Inv-frame s (emit e s) refl refl refl refl refl v

-- A waiting request has an operation record, so there is one to end.
retire_found-Inv :
    (now : ℕ) (ending : Ending) (stage : Stage) (outcome : FailureOutcome) (r : PendingRequest)
    (found : Option OperationRecord) (s : Bridge)
    → Inv s
    → get r.id s.pending_requests ≡ some r
    → get r.id s.operations ≡ found
    → Inv (end_operation now ending r.id stage outcome found (remove_pending_request r s))
retire_found-Inv now ending stage outcome r none s v e f = absurd (ground (arith, v.linked r.id))
retire_found-Inv now ending stage outcome r (some o) s v e f =
    retire-Inv now ending stage outcome r o s v e f

pub end_pending-Inv :
    (now : ℕ) (ending : Ending) (message : String) (r : PendingRequest) (s : Bridge)
    → Inv s
    → get r.id s.pending_requests ≡ some r
    → Inv (end_pending now ending message r s)
unfolding end_pending remove_pending_request
end_pending-Inv now ending message r s v e =
    let found = get r.id s.operations in
    let stage = stage_at_end r found in
    Inv-emit _ _ (
      notify_end-Inv now r ending _
        (retire_found-Inv now ending stage (outcome_at_end stage found) r found s v e refl))

pub end_request_waiter-Inv :
    (now : ℕ) (ending : Ending) (message id : String) (s : Bridge)
    → Inv s
    → Inv (end_request_waiter now ending message id s)
unfolding end_request_waiter
end_request_waiter-Inv now ending message id s v = elim (Option-cases (get id s.pending_requests)) [
  | inl e ↦ rw (e, end_request_waiter) v
  | inr (r, e) ↦
      rw (e, end_request_waiter)
        (end_pending-Inv now ending message r s v
          (subst (λ k. get k s.pending_requests ≡ some r) (sym (v.named id r e)) e))
]

pub end_overdue-Inv :
    (now : ℕ) (rest : Dict PendingRequest) (s : Bridge) → Inv s → Inv (end_overdue now rest s)
unfolding end_overdue fire_timeout
end_overdue-Inv now [] s v = v
end_overdue-Inv now ((id, r) ∷ rest) s v =
    elim (Bool-cases (leb r.timeout_ms (now - r.timestamp))) [
      | inl e ↦ rw e (end_overdue-Inv now rest _ (end_request_waiter-Inv now _ _ id s v))
      | inr e ↦ rw e (end_overdue-Inv now rest s v)
    ]

pub end_all-Inv :
    (now : ℕ) (rest : Dict PendingRequest) (s : Bridge) → Inv s → Inv (end_all now rest s)
unfolding end_all
end_all-Inv now [] s v = v
end_all-Inv now ((id, r) ∷ rest) s v =
    end_all-Inv now rest _ (end_request_waiter-Inv now _ _ id s v)

pub cleanup_old_requests-Inv : (now : ℕ) (s : Bridge) → Inv s → Inv (cleanup_old_requests now s)
unfolding cleanup_old_requests
cleanup_old_requests-Inv now s v = prune-Inv now _ (end_overdue-Inv now s.pending_requests s v)

pub clear_all-Inv : (now : ℕ) (s : Bridge) → Inv s → Inv (clear_all_pending_requests now s)
unfolding clear_all_pending_requests
clear_all-Inv now s v =
    Inv-frame (end_all now s.pending_requests s) _ refl refl refl refl refl
      (end_all-Inv now s.pending_requests s v)
