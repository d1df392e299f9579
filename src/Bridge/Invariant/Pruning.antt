-- ===== src/Bridge/Invariant/Pruning.antt =====
-- Pruning keeps the bookkeeping.
use robloxstudio_mcp.Shared.{
  ℕ, ◌≡◌, String, false, none, some, List, [], ◌∷◌, get, has, if◌then◌else◌, str_eq, eq_iff, arith,
  get-put, get-remove, put-Distinct, remove-Distinct, total-put, total-remove, Option-cases, inl,
  inr,
}
use robloxstudio_mcp.Bridge.Types.{Bridge, OperationRecord}
use robloxstudio_mcp.Bridge.Prune.{forget, drop_key, drop_result, without_result, prune_operations}
use robloxstudio_mcp.Bridge.Prune.Rule.{prune_rule}
use robloxstudio_mcp.Bridge.Invariant.{Inv, has_key, result_bytes_of}

pub has_key-drop_key :
    (k j : String) (keys : List String)
    → has_key j (drop_key k keys) ≡ (if str_eq k j then false else has_key j keys)
unfolding drop_key
has_key-drop_key k j [] = ground arith
has_key-drop_key k j (i ∷ keys) =
    ground (arith, eq_iff k j, eq_iff i k, eq_iff i j, has_key-drop_key k j keys)

pub forget-Inv :
    (id : String) (o : OperationRecord) (s : Bridge)
    → Inv s
    → get id s.operations ≡ some o
    → has id s.pending_requests ≡ false
    → Inv (forget id o s)
unfolding forget
forget-Inv id o s v e idle = record {
  pending_distinct = v.pending_distinct;
  operations_distinct = remove-Distinct id s.operations v.operations_distinct;
  named = v.named;
  linked = λ j. ground (arith, v.linked j, get-remove id j s.operations, eq_iff id j);
  pending_total = v.pending_total;
  retained_total = omega (
    arith,
    v.retained_total,
    total-remove result_bytes_of id o s.operations v.operations_distinct e,
  );
  kept = λ j w f k. ground (
    arith,
    v.kept j w,
    get-remove id j s.operations,
    has_key-drop_key id j s.retained_results,
    eq_iff id j,
  );
  unsettled = λ j w f k. ground (arith, v.unsettled j w, get-remove id j s.operations, eq_iff id j);
  requests_bounded = v.requests_bounded;
  bytes_bounded = v.bytes_bounded;
}

drop_found-Inv :
    (id : String) (o : OperationRecord) (s : Bridge)
    → Inv s
    → get id s.operations ≡ some o
    → Inv (drop_result id s)
unfolding drop_result
drop_found-Inv id o s v e =
    rw (e, drop_result)
      (record {
        pending_distinct = v.pending_distinct;
        operations_distinct = put-Distinct id (without_result o) s.operations v.operations_distinct;
        named = v.named;
        linked = λ j.
            ground (arith, v.linked j, get-put id j (without_result o) s.operations, eq_iff id j);
        pending_total = v.pending_total;
        retained_total = omega (
          arith,
          v.retained_total,
          total-put result_bytes_of id (without_result o) o s.operations e,
        );
        kept = λ j w f k. ground (
          arith,
          v.kept j w,
          get-put id j (without_result o) s.operations,
          has_key-drop_key id j s.retained_results,
          eq_iff id j,
        );
        unsettled = λ j w f k.
            ground
              (arith, v.unsettled j w, get-put id j (without_result o) s.operations, eq_iff id j);
        requests_bounded = v.requests_bounded;
        bytes_bounded = v.bytes_bounded;
      })

drop_missing-Inv :
    (id : String) (s : Bridge) → Inv s → get id s.operations ≡ none → Inv (drop_result id s)
unfolding drop_result
drop_missing-Inv id s v e =
    rw (e, drop_result)
      (record {
        pending_distinct = v.pending_distinct;
        operations_distinct = v.operations_distinct;
        named = v.named;
        linked = v.linked;
        pending_total = v.pending_total;
        retained_total = v.retained_total;
        kept = λ j w f k.
            ground (arith, v.kept j w, has_key-drop_key id j s.retained_results, eq_iff id j);
        unsettled = v.unsettled;
        requests_bounded = v.requests_bounded;
        bytes_bounded = v.bytes_bounded;
      })

pub drop_result-Inv : (id : String) (s : Bridge) → Inv s → Inv (drop_result id s)
drop_result-Inv id s v = elim (Option-cases (get id s.operations)) [
  | inl e ↦ drop_missing-Inv id s v e
  | inr (o, e) ↦ drop_found-Inv id o s v e
]

pub prune-Inv : (now : ℕ) (s : Bridge) → Inv s → Inv (prune_operations now s)
prune-Inv now s v =
    prune_rule Inv (λ t w. w.operations_distinct) (λ id o t w e i. forget-Inv id o t w e i)
      drop_result-Inv now s v
