-- ===== src/Bridge/Answers.antt =====
-- Every waiter gets one answer: the promises that bridge-service.ts settles are those of requests
-- that leave the queue.
use robloxstudio_mcp.Shared.{
  ℕ, ◌+◌, ◌≡◌, refl, sym, ◌∙◌, ap, String, false, Option, none, some, List, [], ◌∷◌, get, has,
  arith, eq_iff, str_eq, get-remove, Option-cases, Bool-cases, inl, inr, if◌then◌else◌, subst,
}
use robloxstudio_mcp.Json.{Platform, Value, undefined}
use robloxstudio_mcp.Bridge.Types.{
  Bridge, OperationRecord, PendingRequest, Effect, resolve, reject, Thrown, ExecutionOutcome, Stage,
  FailureOutcome, failure,
}
use robloxstudio_mcp.Bridge.Prune.{prune_operations, forget, drop_result}
use robloxstudio_mcp.Bridge.Prune.Rule.{prune_rule}
use robloxstudio_mcp.Bridge.Waiters.{
  Ending, emit, remove_pending_request, end_operation, notify_request_cancelled, notify_end,
  end_pending, end_request_waiter, stage_at_end, outcome_at_end, ending_failure,
}
use robloxstudio_mcp.Bridge.Settlement.{
  given_error, is_settled, retain_result, store_result, answer_waiter, answer, settle_open, settle,
  announce, record_response,
}
use robloxstudio_mcp.Bridge.Invariant.{Inv}
use robloxstudio_mcp.Bridge.Invariant.Settling.{settle_open-Inv}
use robloxstudio_mcp.Bridge.Invariant.Pruning.{forget-Inv, drop_result-Inv, prune-Inv}

-- How often the promise of `id` was settled.
unfoldable pub answers : String → List Effect → ℕ
answers id [] = 0
answers id (resolve k v ∷ es) = (if str_eq k id then 1 else 0) + answers id es
answers id (reject k e ∷ es) = (if str_eq k id then 1 else 0) + answers id es
answers id (_ ∷ es) = answers id es

-- The promise of `id` is open, or settled so many times.
unfoldable pub account : String → Bridge → ℕ
account id s = (if has id s.pending_requests then 1 else 0) + answers id s.effects

account-forget :
    (id k : String) (o : OperationRecord) (s : Bridge) → account id (forget k o s) ≡ account id s
unfolding account answers forget
account-forget id k o s = refl

account-drop_result : (id k : String) (s : Bridge) → account id (drop_result k s) ≡ account id s
unfolding account drop_result
account-drop_result id k s = elim (Option-cases (get k s.operations)) [
  | inl e ↦ rw (e, drop_result)
  | inr (o, e) ↦ rw (e, drop_result)
]

pub account-prune :
    (now : ℕ) (id : String) (s : Bridge)
    → Inv s
    → account id (prune_operations now s) ≡ account id s
account-prune now id s v =
    (prune_rule (λ t. Inv t × (account id t ≡ account id s)) (λ t h. h.0.operations_distinct)
      (λ k o t h e i. (forget-Inv k o t h.0 e i, account-forget id k o t ∙ h.1))
      (λ k t h. (drop_result-Inv k t h.0, account-drop_result id k t ∙ h.1)) now s (v, refl)).1

account-notify_end :
    (now : ℕ) (id : String) (r : PendingRequest) (ending : Ending) (s : Bridge)
    → account id (notify_end now r ending s) ≡ account id s
unfolding account answers notify_end notify_request_cancelled
account-notify_end now id r Ending.disconnected s = refl
account-notify_end now id r Ending.timed_out s = ground arith
account-notify_end now id r Ending.aborted s = ground arith

-- A request that leaves the queue without an answer is missed.
account-remove :
    (id : String) (r : PendingRequest) (s : Bridge)
    → get r.id s.pending_requests ≡ some r
    → account id (remove_pending_request r s) + (if str_eq r.id id then 1 else 0) ≡ account id s
unfolding account remove_pending_request
account-remove id r s there = ground (arith, get-remove r.id id s.pending_requests, eq_iff r.id id)

account-answer :
    (id k : String) (response : Value) (error : Option Thrown) (s : Bridge)
    → account id (emit (answer k response error) s) ≡ (if str_eq k id then 1 else 0) + account id s
unfolding account answers
account-answer id k response none s = omega arith
account-answer id k response (some e) s = omega arith

account-end_operation :
    (now : ℕ) (ending : Ending) (id k : String) (stage : Stage) (outcome : FailureOutcome)
    (found : Option OperationRecord) (s : Bridge)
    → account id (end_operation now ending k stage outcome found s) ≡ account id s
unfolding account answers end_operation
account-end_operation now ending id k stage outcome none s = refl
account-end_operation now ending id k stage outcome (some o) s = refl

account-end_pending :
    (now : ℕ) (ending : Ending) (message id : String) (r : PendingRequest) (s : Bridge)
    → get r.id s.pending_requests ≡ some r
    → account id (end_pending now ending message r s) ≡ account id s
unfolding end_pending
account-end_pending now ending message id r s there =
    let t = remove_pending_request r s in
    let found = get r.id t.operations in
    let stage = stage_at_end r found in
    let outcome = outcome_at_end stage found in
    let u = end_operation now ending r.id stage outcome found t in
    let f = failure (ending_failure ending message r stage outcome (get r.id u.operations)) in
    omega (
      arith,
      account-answer id r.id undefined (some f) (notify_end now r ending u),
      account-notify_end now id r ending u,
      account-end_operation now ending id r.id stage outcome found t,
      account-remove id r s there,
    )

-- Where the invariant holds, the end of a waiter by timeout, abort or disconnection leaves the
-- account of every identifier (its open promise, if any, plus the times its promise was settled)
-- as it was.
pub end_request_waiter-account :
    (now : ℕ) (ending : Ending) (message id k : String) (s : Bridge)
    → Inv s
    → account id (end_request_waiter now ending message k s) ≡ account id s
unfolding end_request_waiter
end_request_waiter-account now ending message id k s v =
    elim (Option-cases (get k s.pending_requests)) [
      | inl e ↦ rw (e, end_request_waiter) refl
      | inr (r, e) ↦
          rw (e, end_request_waiter)
            (account-end_pending now ending message id r s
              (subst (λ j. get j s.pending_requests ≡ some r) (sym (v.named k r e)) e))
    ]

account-store_result :
    (id k : String) (stored : OperationRecord × Option ℕ) (s : Bridge)
    → account id (store_result k stored s) ≡ account id s
unfolding account store_result
account-store_result id k (o, none) s = refl
account-store_result id k (o, some n) s = refl

account-answer_waiter :
    (id k : String) (response : Value) (error : Option Thrown) (s : Bridge)
    → ((r : PendingRequest) → get k s.pending_requests ≡ some r → r.id ≡ k)
    → account id (answer_waiter k response error s) ≡ account id s
unfolding answer_waiter
account-answer_waiter id k response error s named = elim (Option-cases (get k s.pending_requests)) [
  | inl e ↦ rw (e, answer_waiter) refl
  | inr (r, e) ↦
      rw (e, answer_waiter)
        (omega (
          arith,
          account-answer id k response error (remove_pending_request r s),
          account-remove id r s
              (subst (λ j. get j s.pending_requests ≡ some r) (sym (named r e)) e),
          ap {B = ℕ} (λ j. (if str_eq j id then 1 else 0)) (named r e),
        ))
]

account-announce :
    (id : String) (transport : Option String) (s : Bridge)
    → account id (announce transport s) ≡ account id s
unfolding account answers
account-announce id none s = refl
account-announce id (some t) s = refl

store_result-pending :
    (k : String) (stored : OperationRecord × Option ℕ) (s : Bridge)
    → (store_result k stored s).pending_requests ≡ s.pending_requests
unfolding store_result
store_result-pending k (o, none) s = refl
store_result-pending k (o, some n) s = refl

account-settle_open :
    (p : Platform) (now : ℕ) (id k : String) (o : OperationRecord) (response : Value)
    (error : Option Thrown) (reported : Option ExecutionOutcome) (s : Bridge)
    → Inv s
    → account id (settle_open p now k o response error reported s) ≡ account id s
unfolding settle_open account answers
account-settle_open p now id k o response error reported s v =
    let stored = retain_result p response error _ in
    account-answer_waiter id k response error (store_result k stored s)
      (λ r e. v.named k r (rw (store_result-pending k stored s) at e))
    ∙ account-store_result id k stored s

account-settle :
    (p : Platform) (now : ℕ) (id k : String) (o : OperationRecord) (response : Value)
    (error : Option Thrown) (reported : Option ExecutionOutcome) (s : Bridge)
    → Inv s
    → get k s.operations ≡ some o
    → is_settled o.status.state ≡ false
    → account id (settle p now k o response error reported s) ≡ account id s
unfolding settle
account-settle p now id k o response error reported s v there open_still =
    account-announce id o.transport_peer_id _
    ∙ account-prune now id _
        (settle_open-Inv p now k o response error reported s v there open_still)
    ∙ account-settle_open p now id k o response error reported s v

-- Where the invariant holds, a response leaves the account of every identifier (its open promise,
-- if any, plus the times its promise was settled) as it was, whether it is accepted, a second one,
-- late, or for a forgotten operation.
pub record_response-account :
    (p : Platform) (now : ℕ) (id k : String) (response : Value) (error : Option Thrown)
    (reported : Option ExecutionOutcome) (s : Bridge)
    → Inv s
    → account id (record_response p now k response error reported s).1 ≡ account id s
unfolding record_response
record_response-account p now id k response error reported s v =
    let same = account-prune now id s v in
    let w = prune-Inv now s v in
    elim (Option-cases (get k (prune_operations now s).operations)) [
      | inl e ↦ rw (e, record_response) same
      | inr (o, e) ↦ elim (Bool-cases (is_settled o.status.state)) [
        | inl f ↦ rw (e, record_response, f) same
        | inr f ↦
            rw (e, record_response, f)
              (account-settle p now id k o response (given_error error) reported _ w e f ∙ same)
      ]
    ]
