-- ===== src/Bridge/Invariant/Reporting.antt =====
-- What a transport reports keeps the bookkeeping.
use robloxstudio_mcp.Shared.{
  ℕ, ◌≡◌, refl, String, Option, none, some, [], ◌∷◌, get, total, Distinct, Dict, arith,
  Option-cases, Bool-cases, inl, inr,
}
use robloxstudio_mcp.Json.{Platform, Value}
use robloxstudio_mcp.Bridge.Settlement.{given_error}
use robloxstudio_mcp.Bridge.Types.{Bridge, OperationRecord, ExecutionOutcome, Thrown}
use robloxstudio_mcp.Bridge.Delivery.{map_values}
use robloxstudio_mcp.Bridge.Progress.{
  owned_operation, progressed, Phase, phase_allowed, observe_transport_progress,
  settle_transport_response, wrapped_error,
}
use robloxstudio_mcp.Bridge.Invariant.{Inv, result_bytes_of}
use robloxstudio_mcp.Bridge.Invariant.Pruning.{prune-Inv}
use robloxstudio_mcp.Bridge.Invariant.Settling.{record_response-Inv}
use robloxstudio_mcp.Bridge.Invariant.Delivering.{requeue-Inv}

-- A pass over the operations that touches no state and no result.
module _ (f : OperationRecord → OperationRecord)
    (same_state : (o : OperationRecord) → (f o).status.state ≡ o.status.state)
    (same_bytes : (o : OperationRecord) → (f o).result_bytes ≡ o.result_bytes) where
  get-map_values :
      (id : String) (m : Dict OperationRecord)
      → get id (map_values f m) ≡ elim (get id m) [ none ↦ none | some o ↦ some (f o) ]
  unfolding get
  get-map_values id [] = refl
  get-map_values id ((j, o) ∷ m) = ground (arith, get-map_values id m)

  map_values-Distinct : (m : Dict OperationRecord) → Distinct m → Distinct (map_values f m)
  map_values-Distinct [] d = tt
  map_values-Distinct ((j, o) ∷ m) (new, d) =
      (rw (get-map_values j m, new) refl, map_values-Distinct m d)

  total-map_values :
      (m : Dict OperationRecord) → total result_bytes_of (map_values f m) ≡ total result_bytes_of m
  unfolding total
  total-map_values [] = refl
  total-map_values ((j, o) ∷ m) = omega (arith, total-map_values m, same_bytes o)

  pub map_values-Inv :
      (s : Bridge) → Inv s → Inv (record s { operations = map_values f s.operations })
  map_values-Inv s v = record {
    pending_distinct = v.pending_distinct;
    operations_distinct = map_values-Distinct s.operations v.operations_distinct;
    named = v.named;
    linked = λ j. elim (Option-cases (get j s.operations)) [
      | inl e ↦ ground (arith, v.linked j, get-map_values j s.operations)
      | inr (o, e) ↦ ground (arith, v.linked j, get-map_values j s.operations, same_state o)
    ];
    pending_total = v.pending_total;
    retained_total = omega (arith, v.retained_total, total-map_values s.operations);
    kept = λ j q g k. elim (Option-cases (get j s.operations)) [
      | inl e ↦ ground (arith, get-map_values j s.operations)
      | inr (o, e) ↦ ground (arith, v.kept j o, get-map_values j s.operations, same_bytes o)
    ];
    unsettled = λ j q g k. elim (Option-cases (get j s.operations)) [
      | inl e ↦ ground (arith, get-map_values j s.operations)
      | inr (o, e) ↦
          ground (arith, v.unsettled j o, get-map_values j s.operations, same_bytes o, same_state o)
    ];
    requests_bounded = v.requests_bounded;
    bytes_bounded = v.bytes_bounded;
  }

owned-Inv :
    (now : ℕ) (transport id : String) (s : Bridge)
    → Inv s
    → Inv (owned_operation now transport id s).1
unfolding owned_operation
owned-Inv now transport id s v = prune-Inv now s v

-- An owned operation is the record that the map has.
pub owned-get :
    (now : ℕ) (transport id : String) (s : Bridge) (o : OperationRecord)
    → (owned_operation now transport id s).0 ≡ some o
    → get id (owned_operation now transport id s).1.operations ≡ some o
unfolding owned_operation
owned-get now transport id s o e = ground arith

progressed-same :
    (now : ℕ) (phase : Phase) (outcome : Option ExecutionOutcome) (o : OperationRecord)
    → ((progressed now phase outcome o).status.state ≡ o.status.state)
      × ((progressed now phase outcome o).result_bytes ≡ o.result_bytes)
unfolding progressed
progressed-same now Phase.executing outcome o = (refl, refl)
progressed-same now Phase.response_delivery outcome o = (refl, refl)

pub observe_transport_progress-Inv :
    (now : ℕ) (transport id : String) (phase : Phase) (outcome : Option ExecutionOutcome)
    (s : Bridge)
    → Inv s
    → Inv (observe_transport_progress now transport id phase outcome s)
unfolding observe_transport_progress
observe_transport_progress-Inv now transport id phase outcome s v =
    let w = owned-Inv now transport id s v in
    elim (Option-cases (owned_operation now transport id s).0) [
      | inl e ↦ rw (e, observe_transport_progress) w
      | inr (o, e) ↦ elim (Bool-cases (phase_allowed phase o.status)) [
        | inr bad ↦ rw (e, observe_transport_progress, bad) w
        | inl good ↦
            let (state, bytes) = progressed-same now phase outcome o in
            rw (e, observe_transport_progress, good)
              (requeue-Inv _ w id o _ (owned-get now transport id s o e) state bytes)
      ]
    ]

pub settle_transport_response-Inv :
    (p : Platform) (now : ℕ) (transport id : String) (response : Value) (error : Option Thrown)
    (outcome : Option ExecutionOutcome) (s : Bridge)
    → Inv s
    → Inv (settle_transport_response p now transport id response error outcome s).1
unfolding settle_transport_response
settle_transport_response-Inv p now transport id response error outcome s v =
    let w = owned-Inv now transport id s v in
    elim (Option-cases (owned_operation now transport id s).0) [
      | inl e ↦ rw (e, settle_transport_response) w
      | inr (o, e) ↦
          rw (e, settle_transport_response)
            (record_response-Inv p now id response
              (wrapped_error now id o (given_error error) outcome) outcome _ w)
    ]
