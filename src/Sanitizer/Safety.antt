-- ===== src/Sanitizer/Safety.antt =====
-- The outcomes of `sanitizeLoadedAsset` in studio-plugin/src/modules/AssetSanitizationPolicy.ts.
use robloxstudio_mcp.Shared.{
  ℕ, ◌≡◌, refl, Bool, false, none, some, List, [], ◌∷◌, ◌||◌, length, filter, ltb, All, arith,
  Bool-cases, inl, inr,
}
use robloxstudio_mcp.Sanitizer.{
  Studio, SanitizationResult, scan, verify, remove_found, sanitize_unparented,
  sanitize_loaded_asset,
}

-- No script and no package link among the instances.
abbrev pub NoneForbidden : {Instance W : Type 0} → Studio Instance W → List Instance → Type 0
NoneForbidden s instances =
    All (λ x. (s.is_script x ≡ false) × (s.is_package_link x ≡ false)) instances

none_found :
    {A : Type 0} (p q : A → Bool) (xs : List A)
    → (ltb 0 (length (filter p xs)) || ltb 0 (length (filter q xs))) ≡ false
    → All (λ x. (p x ≡ false) × (q x ≡ false)) xs
none_found p q [] h = tt
none_found p q (x ∷ xs) h = elim (Bool-cases (p x)) [
  | inl e ↦ let k = rw (e) at h in absurd (ground (arith, k))
  | inr e ↦ elim (Bool-cases (q x)) [
    | inl f ↦ let k = rw (e, f) at h in absurd (ground (arith, k))
    | inr f ↦ ((e, f), none_found p q xs (rw (e, f) at h))
  ]
]

module _ {Instance W : Type 0} (s : Studio Instance W) (root : Instance) where
  -- An accepted asset holds nothing forbidden; a refused one was destroyed by the last call.
  abbrev pub Safe : W × SanitizationResult → Type 0
  Safe (v, r) = elim r.error [
    | none ↦ NoneForbidden s (root ∷ s.descendants v root)
    | some e ↦ (u : W) × (v ≡ (s.destroy u root).0)
  ]

  verify-Safe : (w : W) (m n : ℕ) → Safe (verify s w root m n)
  unfolding verify scan
  verify-Safe w m n =
      let found = root ∷ s.descendants w root in
      elim (Bool-cases (
        ltb 0 (length (filter s.is_script found))
        || ltb 0 (length (filter s.is_package_link found)))) [
          | inl some_left ↦ rw (some_left) (w, refl)
          | inr none_left ↦
              rw (none_left) (none_found s.is_script s.is_package_link found none_left)
        ]

  sanitize_unparented-Safe : (w : W) → Safe (sanitize_unparented s w root)
  unfolding sanitize_unparented remove_found
  sanitize_unparented-Safe w = elim (Bool-cases (s.is_script root || s.is_package_link root)) [
    | inl forbidden ↦ rw (forbidden) (w, refl)
    | inr allowed ↦ rw (allowed) (verify-Safe _ _ _)
  ]

  -- Whatever Studio's operations do, an asset that is accepted has no script and no package link
  -- among its root and its descendants, and one that is refused had its root destroyed by the last
  -- call.
  pub sanitize_loaded_asset-Safe : (w : W) → Safe (sanitize_loaded_asset s w root)
  unfolding sanitize_loaded_asset
  sanitize_loaded_asset-Safe w = elim (Bool-cases (s.force_unparent w root).1) [
    | inl unparented ↦ rw (unparented) (sanitize_unparented-Safe (s.force_unparent w root).0)
    | inr stuck ↦ rw (stuck) ((s.force_unparent w root).0, refl)
  ]
