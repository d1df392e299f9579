-- ===== src/Bridge/Invariant/Settling.antt =====
-- A response keeps the bookkeeping.
use robloxstudio_mcp.Shared.{
  ℕ, ◌+◌, ◌≡◌, refl, sym, subst, String, true, false, Option, none, some, List, [], ◌∷◌, get,
  if◌then◌else◌, str_eq, eq_iff, arith, get-remove, remove-Distinct, total-remove, size-remove-le,
  Option-cases, Bool-cases, inl, inr, ltb,
}
use robloxstudio_mcp.Json.{Value, Platform}
use robloxstudio_mcp.Bridge.Types.{
  Bridge, OperationRecord, PendingRequest, RequestState, Thrown, ExecutionOutcome,
  max_retained_result_bytes,
}
use robloxstudio_mcp.Bridge.Prune.{add_key, prune_operations}
use robloxstudio_mcp.Bridge.Waiters.{move_last, remove_pending_request}
use robloxstudio_mcp.Bridge.Settlement.{
  given_error, is_settled, retain_result, result_value, store_result, answer_waiter, answer,
  settle_open, settle, settled_status, record_response, announce,
}
use robloxstudio_mcp.Bridge.Invariant.{Inv, has_key, result_bytes_of, request_bytes_of}
use robloxstudio_mcp.Bridge.Invariant.Pruning.{prune-Inv}
use robloxstudio_mcp.Bridge.Invariant.Ending.{
  get-move_last, move_last-Distinct, total-move_last, Inv-frame, Inv-emit,
}

pub has_key-add_key :
    (k j : String) (keys : List String)
    → has_key j (add_key k keys) ≡ (if str_eq k j then true else has_key j keys)
unfolding add_key
has_key-add_key k j [] = ground arith
has_key-add_key k j (i ∷ keys) =
    ground (arith, eq_iff k j, eq_iff i k, eq_iff i j, has_key-add_key k j keys)

-- What a settlement writes to the operations and to the retained results.
abbrev stored_state : String → OperationRecord → List String → ℕ → Bridge → Bridge
stored_state id w keys bytes s = record s {
  operations = move_last id w s.operations;
  retained_results = keys;
  retained_result_bytes = bytes;
}

module _ (id : String) (o w : OperationRecord) (keys : List String) (bytes : ℕ) (s : Bridge)
    (v : Inv s) (there : get id s.operations ≡ some o)
    (open_still : is_settled o.status.state ≡ false) (is : w.status.state ≡ RequestState.settled)
    (counted : bytes ≡ s.retained_result_bytes + w.result_bytes)
    (covers : (j : String)
      → has_key j keys ≡ false
      → (has_key j s.retained_results ≡ false) × (str_eq id j ≡ true → w.result_bytes ≡ 0)) where
  -- With no waiter left.
  late-Inv : get id s.pending_requests ≡ none → Inv (stored_state id w keys bytes s)
  late-Inv e = record {
    pending_distinct = v.pending_distinct;
    operations_distinct = move_last-Distinct id w s.operations v.operations_distinct;
    named = v.named;
    linked = λ j. ground (arith, v.linked j, get-move_last id j w s.operations, eq_iff id j);
    pending_total = v.pending_total;
    retained_total = omega (
      arith,
      v.retained_total,
      counted,
      v.unsettled id o there open_still,
      total-move_last result_bytes_of id w o s.operations v.operations_distinct there,
    );
    kept = λ j q g k.
        ground (arith, v.kept j q, covers j k, get-move_last id j w s.operations, eq_iff id j);
    unsettled = λ j q g k.
        ground (arith, v.unsettled j q, is, get-move_last id j w s.operations, eq_iff id j);
    requests_bounded = v.requests_bounded;
    bytes_bounded = v.bytes_bounded;
  }

  -- With a waiter, which is removed.
  answered-Inv :
      (r : PendingRequest)
      → get id s.pending_requests ≡ some r
      → Inv (remove_pending_request r (stored_state id w keys bytes s))
  unfolding remove_pending_request
  answered-Inv r e =
      let at : get r.id s.pending_requests ≡ some r =
        subst (λ k. get k s.pending_requests ≡ some r) (sym (v.named id r e)) e in
      record {
        pending_distinct = remove-Distinct r.id s.pending_requests v.pending_distinct;
        operations_distinct = move_last-Distinct id w s.operations v.operations_distinct;
        named = λ j q g.
            ground (arith, v.named j q, get-remove r.id j s.pending_requests, eq_iff r.id j);
        linked = λ j. ground (
          arith,
          v.linked j,
          v.named id r e,
          is,
          get-remove r.id j s.pending_requests,
          get-move_last id j w s.operations,
          eq_iff r.id j,
          eq_iff id j,
        );
        pending_total = omega (
          arith,
          v.pending_total,
          total-remove request_bytes_of r.id r s.pending_requests v.pending_distinct at,
        );
        retained_total = omega (
          arith,
          v.retained_total,
          counted,
          v.unsettled id o there open_still,
          total-move_last result_bytes_of id w o s.operations v.operations_distinct there,
        );
        kept = λ j q g k.
            ground (arith, v.kept j q, covers j k, get-move_last id j w s.operations, eq_iff id j);
        unsettled = λ j q g k.
            ground (arith, v.unsettled j q, is, get-move_last id j w s.operations, eq_iff id j);
        requests_bounded =
            omega (arith, v.requests_bounded, size-remove-le r.id s.pending_requests);
        bytes_bounded = omega (arith, v.bytes_bounded);
      }

  -- `answer_waiter` makes one of the two.
  answer-Inv :
      (response : Value) (error : Option Thrown)
      → Inv (answer_waiter id response error (stored_state id w keys bytes s))
  unfolding answer_waiter
  answer-Inv response error = elim (Option-cases (get id s.pending_requests)) [
    | inl e ↦ rw (e, answer_waiter) (late-Inv e)
    | inr (r, e) ↦ rw (e, answer_waiter) (Inv-emit (answer id response error) _ (answered-Inv r e))
  ]

-- A record that a settlement stores: settled, with its bytes counted exactly once.
abbrev pub IsStored : OperationRecord × Option ℕ → Type 0
IsStored (o, none) = (o.status.state ≡ RequestState.settled) × (o.result_bytes ≡ 0)
IsStored (o, some bytes) = (o.status.state ≡ RequestState.settled) × (o.result_bytes ≡ bytes)

stored-Inv :
    (id : String) (response : Value) (error : Option Thrown) (o : OperationRecord) (s : Bridge)
    (stored : OperationRecord × Option ℕ)
    → Inv s
    → get id s.operations ≡ some o
    → is_settled o.status.state ≡ false
    → IsStored stored
    → Inv (answer_waiter id response error (store_result id stored s))
unfolding store_result
stored-Inv id response error o s (w, none) v there open_still (is, zero_bytes) =
    answer-Inv id o w s.retained_results s.retained_result_bytes s v there open_still is
      (omega arith) (λ j k. (k, λ e. zero_bytes)) response error
stored-Inv id response error o s (w, some bytes) v there open_still (is, counted) =
    answer-Inv id o w (add_key id s.retained_results) (s.retained_result_bytes + bytes) s v there
      open_still is (omega arith)
      (λ j k. (
        ground (arith, has_key-add_key id j s.retained_results),
        λ e. ground (arith, has_key-add_key id j s.retained_results),
      ))
      response error

retain_result-IsStored :
    (p : Platform) (response : Value) (error : Option Thrown) (w : OperationRecord)
    → w.status.state ≡ RequestState.settled
    → w.result_bytes ≡ 0
    → IsStored (retain_result p response error w)
unfolding retain_result
retain_result-IsStored p response error w is zero_bytes =
    elim (Option-cases (p.stringify (result_value response error))) [
      | inl e ↦ rw (e, retain_result) (is, zero_bytes)
      | inr (text, e) ↦
          rw (e, retain_result)
            (elim (Bool-cases (ltb max_retained_result_bytes (p.byte_length text))) [
              | inl f ↦ rw f (is, zero_bytes)
              | inr f ↦ rw f (is, refl)
            ])
    ]

announce-Inv : (transport : Option String) (s : Bridge) → Inv s → Inv (announce transport s)
announce-Inv none s v = v
announce-Inv (some t) s v = Inv-emit _ s v

pub settle_open-Inv :
    (p : Platform) (now : ℕ) (id : String) (o : OperationRecord) (response : Value)
    (error : Option Thrown) (reported : Option ExecutionOutcome) (s : Bridge)
    → Inv s
    → get id s.operations ≡ some o
    → is_settled o.status.state ≡ false
    → Inv (settle_open p now id o response error reported s)
unfolding settle_open settled_status
settle_open-Inv p now id o response error reported s v there open_still =
    Inv-frame _ _ refl refl refl refl refl (
      stored-Inv id response error o s _ v there open_still
        (retain_result-IsStored p response error _ refl (v.unsettled id o there open_still)))

pub settle-Inv :
    (p : Platform) (now : ℕ) (id : String) (o : OperationRecord) (response : Value)
    (error : Option Thrown) (reported : Option ExecutionOutcome) (s : Bridge)
    → Inv s
    → get id s.operations ≡ some o
    → is_settled o.status.state ≡ false
    → Inv (settle p now id o response error reported s)
unfolding settle
settle-Inv p now id o response error reported s v there open_still =
    announce-Inv o.transport_peer_id _
      (prune-Inv now _ (settle_open-Inv p now id o response error reported s v there open_still))

pub record_response-Inv :
    (p : Platform) (now : ℕ) (id : String) (response : Value) (error : Option Thrown)
    (reported : Option ExecutionOutcome) (s : Bridge)
    → Inv s
    → Inv (record_response p now id response error reported s).1
unfolding record_response
record_response-Inv p now id response error reported s v =
    let w = prune-Inv now s v in
    elim (Option-cases (get id (prune_operations now s).operations)) [
      | inl e ↦ rw (e, record_response) w
      | inr (o, e) ↦ elim (Bool-cases (is_settled o.status.state)) [
        | inl f ↦ rw (e, record_response, f) w
        | inr f ↦
            rw (e, record_response, f)
              (settle-Inv p now id o response (given_error error) reported _ w e f)
      ]
    ]
