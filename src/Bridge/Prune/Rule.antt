-- ===== src/Bridge/Prune/Rule.antt =====
-- The proof rule of `pruneOperations`: what forgetting one idle record and dropping one result
-- keep, pruning keeps.
use robloxstudio_mcp.Shared.{
  ℕ, zero, suc, String, false, some, List, [], ◌∷◌, Dict, get, has, remove, size, Distinct, ◌≡◌,
  inl, inr, arith, ltb, Bool-cases, Option-cases, eq_iff, get-remove, ◌-◌,
}
use robloxstudio_mcp.Bridge.Types.{
  Bridge, OperationRecord, PendingRequest, operation_retention_ms, max_operation_records,
}
use robloxstudio_mcp.Bridge.Prune.{
  forget, expire, first_idle, trim, drop_result, evict, enforce_capacity, prune_operations, fits,
}

-- Every entry of a snapshot still stands in the map.
abbrev pub Covers {ℓ} : {V : Type ℓ} → Dict V → Dict V → Type ℓ
Covers {V} rest m = (id : String) (v : V) → get id rest ≡ some v → get id m ≡ some v

Covers-tail {ℓ} :
    {V : Type ℓ} (id : String) (v : V) (rest m : Dict V)
    → Distinct ((id, v) ∷ rest)
    → Covers ((id, v) ∷ rest) m
    → Covers rest m
unfolding get
Covers-tail id v rest m d c j w h = ground (arith, c j w, eq_iff id j)

Covers-remove {ℓ} :
    {V : Type ℓ} (id : String) (v : V) (rest m : Dict V)
    → Distinct ((id, v) ∷ rest)
    → Covers ((id, v) ∷ rest) m
    → Covers rest (remove id m)
unfolding get
Covers-remove id v rest m d c j w h = ground (arith, c j w, eq_iff id j, get-remove id j m)

Covers-head {ℓ} :
    {V : Type ℓ} (id : String) (v : V) (rest m : Dict V)
    → Covers ((id, v) ∷ rest) m
    → get id m ≡ some v
unfolding get
Covers-head id v rest m c = c id v (ground (arith, eq_iff id id))

pub first_idle-get :
    (pending : Dict PendingRequest) (m : Dict OperationRecord) (id : String) (o : OperationRecord)
    → Distinct m
    → first_idle pending m ≡ some (id, o)
    → (get id m ≡ some o) × (has id pending ≡ false)
unfolding first_idle get
first_idle-get pending [] id o d h = cc
first_idle-get pending ((j, w) ∷ m) id o d h =
    ground (arith, first_idle-get pending m id o d.1, eq_iff j id)

module _ {ℓ} (P : Bridge → Type ℓ) (distinct : (s : Bridge) → P s → Distinct s.operations)
    (on_forget : (id : String) (o : OperationRecord) (s : Bridge)
      → P s
      → get id s.operations ≡ some o
      → has id s.pending_requests ≡ false
      → P (forget id o s)) where
  pub expire_rule :
      (now : ℕ) (rest : Dict OperationRecord) (s : Bridge)
      → Distinct rest
      → Covers rest s.operations
      → P s
      → P (expire now rest s)
  unfolding expire forget
  expire_rule now [] s d c h = h
  expire_rule now ((id, o) ∷ rest) s d c h = elim (Bool-cases (has id s.pending_requests)) [
    | inl e ↦ rw e (expire_rule now rest s d.1 (Covers-tail id o rest s.operations d c) h)
    | inr e ↦ elim (Bool-cases (ltb (now - o.updated_at) operation_retention_ms)) [
      | inl young ↦ rw (e, young) h
      | inr old ↦
          rw (e, old)
            (expire_rule now rest (forget id o s) d.1 (Covers-remove id o rest s.operations d c)
              (on_forget id o s h (Covers-head id o rest s.operations c) e))
    ]
  ]

  pub trim_rule : (fuel : ℕ) (s : Bridge) → P s → P (trim fuel s)
  unfolding trim
  trim_rule zero s h = h
  trim_rule (suc fuel) s h = elim (Bool-cases (ltb max_operation_records (size s.operations))) [
    | inr e ↦ rw (e, trim) h
    | inl e ↦ elim (Option-cases (first_idle s.pending_requests s.operations)) [
      | inl f ↦ rw (e, trim, f) h
      | inr ((id, o), f) ↦
          rw (e, trim, f)
            (trim_rule fuel (forget id o s) (
              let (there, idle) =
                first_idle-get s.pending_requests s.operations id o (distinct s h) f in
              on_forget id o s h there idle))
    ]
  ]

  module _ (on_drop : (id : String) (s : Bridge) → P s → P (drop_result id s)) where
    pub evict_rule : (ids : List String) (s : Bridge) → P s → P (evict ids s)
    unfolding evict
    evict_rule [] s h = h
    evict_rule (id ∷ ids) s h = elim (Bool-cases (fits (drop_result id s))) [
      | inl e ↦ rw e (on_drop id s h)
      | inr e ↦ rw e (evict_rule ids (drop_result id s) (on_drop id s h))
    ]

    pub enforce_capacity_rule : (s : Bridge) → P s → P (enforce_capacity s)
    unfolding enforce_capacity
    enforce_capacity_rule s h = elim (Bool-cases (fits s)) [
      | inl e ↦ rw e h
      | inr e ↦ rw e (evict_rule s.retained_results s h)
    ]

    pub prune_rule : (now : ℕ) (s : Bridge) → P s → P (prune_operations now s)
    unfolding prune_operations
    prune_rule now s h =
        enforce_capacity_rule _
          (trim_rule _ _ (expire_rule now s.operations s (distinct s h) (λ id v e. e) h))
