-- ===== src/Bridge/Prune/Capacity.antt =====
-- What pruning guarantees: the limits on records and on retained results.
use robloxstudio_mcp.Shared.{
  ℕ, zero, suc, ◌+◌, ◌≡◌, ◌≤◌, refl, String, true, false, none, some, List, [], ◌∷◌, Dict, get, has,
  size, total, remove, length, Distinct, arith, eq_iff, get-remove, remove-Distinct, size-remove,
  size-put, Option-cases, Bool-cases, inl, inr, ltb,
}
use robloxstudio_mcp.Bridge.Types.{
  Bridge, OperationRecord, PendingRequest, max_operation_records, max_retained_results,
  max_retained_result_bytes,
}
use robloxstudio_mcp.Bridge.Prune.{
  forget, expire, first_idle, trim, drop_result, drop_key, evict, enforce_capacity,
  prune_operations, fits, without_result,
}
use robloxstudio_mcp.Bridge.Prune.Rule.{first_idle-get, expire_rule, trim_rule}
use robloxstudio_mcp.Bridge.Invariant.{Inv, has_key, result_bytes_of}
use robloxstudio_mcp.Bridge.Invariant.Pruning.{
  forget-Inv, drop_result-Inv, prune-Inv, has_key-drop_key,
}

total_zero :
    (m : Dict OperationRecord)
    → Distinct m
    → ((id : String) (o : OperationRecord) → get id m ≡ some o → o.result_bytes ≡ 0)
    → total result_bytes_of m ≡ 0
unfolding get total
total_zero [] d h = refl
total_zero ((k, o) ∷ m) d h = omega (
  arith,
  h k o (ground (arith, eq_iff k k)),
  total_zero m d.1 (λ id q e. h id q (ground (arith, eq_iff k id))),
)

no_keys : (keys : List String) → ((j : String) → has_key j keys ≡ false) → keys ≡ []
no_keys [] h = refl
no_keys (k ∷ keys) h = absurd (ground (arith, h k, eq_iff k k))

-- With no key left, nothing is counted.
fits_empty :
    (s : Bridge) → Inv s → ((j : String) → has_key j s.retained_results ≡ false) → fits s ≡ true
fits_empty s v h = ground (
  arith,
  no_keys s.retained_results h,
  v.retained_total,
  total_zero s.operations v.operations_distinct (λ id o e. v.kept id o e (h id)),
)

retained-drop_result :
    (id : String) (s : Bridge)
    → (drop_result id s).retained_results ≡ drop_key id s.retained_results
unfolding drop_result
retained-drop_result id s = elim (Option-cases (get id s.operations)) [
  | inl e ↦ rw (e, drop_result)
  | inr (o, e) ↦ rw (e, drop_result)
]

evict-fits :
    (ids : List String) (s : Bridge)
    → Inv s
    → ((j : String) → has_key j ids ≡ false → has_key j s.retained_results ≡ false)
    → fits s ≡ false
    → fits (evict ids s) ≡ true
unfolding evict
evict-fits [] s v cover over = absurd (ground (arith, fits_empty s v (λ j. cover j refl)))
evict-fits (id ∷ ids) s v cover over = elim (Bool-cases (fits (drop_result id s))) [
  | inl e ↦ rw e e
  | inr e ↦ rw e (
      evict-fits ids (drop_result id s) (drop_result-Inv id s v)
        (λ j h.
          ground
            (arith, cover j, retained-drop_result id s, has_key-drop_key id j s.retained_results))
        e)
]

-- The retained results are within both of their limits.
enforce-fits : (s : Bridge) → Inv s → fits (enforce_capacity s) ≡ true
unfolding enforce_capacity
enforce-fits s v = elim (Bool-cases (fits s)) [
  | inl e ↦ rw e e
  | inr e ↦ rw e (evict-fits s.retained_results s v (λ j h. h) e)
]

all_busy :
    (pending : Dict PendingRequest) (m : Dict OperationRecord)
    → first_idle pending m ≡ none
    → Distinct m
    → (id : String) (o : OperationRecord) → get id m ≡ some o
    → has id pending ≡ true
unfolding first_idle get
all_busy pending [] n d id o e = cc
all_busy pending ((k, q) ∷ m) n d id o e =
    ground (arith, all_busy pending m (ground arith) d.1 id o, eq_iff k id)

size-le_of_covered :
    (m : Dict OperationRecord) (pending : Dict PendingRequest)
    → Distinct m
    → Distinct pending
    → ((id : String) (o : OperationRecord) → get id m ≡ some o → has id pending ≡ true)
    → size m ≤ size pending
unfolding get
size-le_of_covered [] pending d e h = omega arith
size-le_of_covered ((k, q) ∷ m) pending d e h = elim (Option-cases (get k pending)) [
  | inl none_there ↦ absurd (ground (arith, h k q (ground (arith, eq_iff k k))))
  | inr (r, there) ↦ omega (
    arith,
    size-remove k r pending e there,
    size-le_of_covered m (remove k pending) d.1 (remove-Distinct k pending e)
        (λ id o f. ground (arith, h id o, get-remove k id pending, eq_iff k id)),
  )
]

forget-size :
    (fuel : ℕ) (id : String) (o : OperationRecord) (s : Bridge)
    → Inv s
    → get id s.operations ≡ some o
    → size s.operations ≤ suc fuel + max_operation_records
    → size (forget id o s).operations ≤ fuel + max_operation_records
unfolding forget
forget-size fuel id o s v there h =
    omega (arith, size-remove id o s.operations v.operations_distinct there)

trim-size :
    (fuel : ℕ) (s : Bridge)
    → Inv s
    → size s.operations ≤ fuel + max_operation_records
    → size (trim fuel s).operations ≤ max_operation_records
unfolding trim
trim-size zero s v h = omega arith
trim-size (suc fuel) s v h = elim (Bool-cases (ltb max_operation_records (size s.operations))) [
  | inr e ↦ rw (e, trim) (ground arith)
  | inl e ↦ elim (Option-cases (first_idle s.pending_requests s.operations)) [
    | inl f ↦ absurd (
        ground (
          arith,
          v.requests_bounded,
          size-le_of_covered s.operations s.pending_requests v.operations_distinct
              v.pending_distinct (all_busy s.pending_requests s.operations f v.operations_distinct),
        ))
    | inr ((id, o), f) ↦
        let (there, idle) =
          first_idle-get s.pending_requests s.operations id o v.operations_distinct f in
        rw (e, trim, f)
          (trim-size fuel (forget id o s) (forget-Inv id o s v there idle)
            (forget-size fuel id o s v there h))
  ]
]

size-drop_result :
    (id : String) (s : Bridge) → size (drop_result id s).operations ≡ size s.operations
unfolding drop_result
size-drop_result id s = elim (Option-cases (get id s.operations)) [
  | inl e ↦ rw (e, drop_result)
  | inr (o, e) ↦ rw (e, drop_result) (size-put id (without_result o) o s.operations e)
]

size-evict : (ids : List String) (s : Bridge) → size (evict ids s).operations ≡ size s.operations
unfolding evict
size-evict [] s = refl
size-evict (id ∷ ids) s = ground (arith, size-drop_result id s, size-evict ids (drop_result id s))

size-enforce : (s : Bridge) → size (enforce_capacity s).operations ≡ size s.operations
unfolding enforce_capacity
size-enforce s = ground (arith, size-evict s.retained_results s)

forgets-Inv :
    (id : String) (o : OperationRecord) (s : Bridge)
    → Inv s
    → get id s.operations ≡ some o
    → has id s.pending_requests ≡ false
    → Inv (forget id o s)
forgets-Inv id o s v e i = forget-Inv id o s v e i

-- Where the invariant holds, one pruning leaves at most 32,768 operation records, at most 1,024
-- retained results and at most 64 MiB of results in them.
pub prune_limits :
    (now : ℕ) (s : Bridge)
    → Inv s
    → (size (prune_operations now s).operations ≤ max_operation_records)
      × (length (prune_operations now s).retained_results ≤ max_retained_results)
      × (total result_bytes_of (prune_operations now s).operations ≤ max_retained_result_bytes)
unfolding prune_operations
prune_limits now s v =
    let t = expire now s.operations s in
    let w : Inv t =
      expire_rule Inv (λ u k. k.operations_distinct) forgets-Inv now s.operations s
        v.operations_distinct (λ id o e. e) v in
    let x : Inv (trim (size t.operations) t) =
      trim_rule Inv (λ u k. k.operations_distinct) forgets-Inv (size t.operations) t w in
    let f = enforce-fits (trim (size t.operations) t) x in
    (
      omega (
        arith,
        size-enforce (trim (size t.operations) t),
        trim-size (size t.operations) t w (omega arith),
      ),
      ground (arith, f),
      ground (arith, f, (prune-Inv now s v).retained_total),
    )
