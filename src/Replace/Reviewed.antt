-- ===== src/Replace/Reviewed.antt =====
-- What `checkRevisions` of studio-plugin/src/modules/ScriptReplace.ts establishes where it finds no
-- mismatch.
use robloxstudio_mcp.Bytes.{Bytes, same, same-≡}
use robloxstudio_mcp.Searches.{Any, any-Any}
use robloxstudio_mcp.Shared.{
  ◌≡◌, refl, false, not, Option, none, some, List, [], ◌∷◌, ◌++◌, filter, All, arith, Bool-cases,
  Option-cases, inl, inr, sym, ◌∙◌, ap, or_else, subst, ok, >>=-ok, ok_inj,
}
use robloxstudio_mcp.Replace.{ReplaceCorpus, PlannedScript}
use robloxstudio_mcp.Replace.Planning.{
  lookup, check_planned, insert_sorted, sort, is_planned, check_reviewed, check_all_reviewed,
  check_revisions,
}

-- The path is among those that were reviewed, with this revision.
abbrev pub IsExpected : List (Bytes × Bytes) → Bytes → Bytes → Type 0
IsExpected expected path revision = Any (λ x. (x.0 ≡ path) × (x.1 ≡ revision)) expected

-- Each planned script has a path of its own and the revision that was reviewed, and each path that
-- was reviewed is planned.
abbrev pub IsReviewed : {Node : Type 0} → List (Bytes × Bytes) → List (PlannedScript Node) → Type 0
IsReviewed expected scripts =
    All (λ e. (e.ambiguous ≡ false) × IsExpected expected e.snapshot.instance_path e.revision)
      scripts
    × All (λ x. Any (λ e. e.snapshot.instance_path ≡ x.0) scripts) expected

abbrev pub IsReviewedIfAny :
    {Node : Type 0} → Option (List (Bytes × Bytes)) → List (PlannedScript Node) → Type 0
IsReviewedIfAny none scripts = Unit
IsReviewedIfAny (some expected) scripts = IsReviewed expected scripts

lookup-IsExpected :
    (path : Bytes) (expected : List (Bytes × Bytes)) (revision : Bytes)
    → lookup path expected ≡ some revision
    → IsExpected expected path revision
unfolding lookup
lookup-IsExpected path [] revision e = cc
lookup-IsExpected path ((key, value) ∷ rest) revision e = elim (Bool-cases (same path key)) [
  | inl h ↦
      let found : some value ≡ some revision = sym (rw (h)) ∙ e in
      inl (sym (same-≡ path key h), ap (λ o. or_else o value) found)
  | inr h ↦ inr (lookup-IsExpected path rest revision (sym (rw (h)) ∙ e))
]

module _ {Node : Type 0} where
  check_planned-nil :
      (expected : List (Bytes × Bytes)) (scripts : List (PlannedScript Node))
      → check_planned expected scripts ≡ []
      → All
          (λ e. (e.ambiguous ≡ false) × IsExpected expected e.snapshot.instance_path e.revision)
          scripts
  unfolding check_planned
  check_planned-nil expected [] h = tt
  check_planned-nil expected (e ∷ es) h = elim (Bool-cases e.ambiguous) [
    | inl a ↦ ground arith
    | inr a ↦ elim (Option-cases (lookup e.snapshot.instance_path expected)) [
      | inl n ↦ ground arith
      | inr (r, n) ↦ elim (Bool-cases (same r e.revision)) [
        | inr c ↦ ground arith
        | inl c ↦
            let rest : check_planned expected es ≡ [] = sym (rw (a, n, c, check_planned)) ∙ h in
            (
              (
                a,
                subst (IsExpected expected e.snapshot.instance_path) (same-≡ r e.revision c)
                    (lookup-IsExpected e.snapshot.instance_path expected r n),
              ),
              check_planned-nil expected es rest,
            )
      ]
    ]
  ]

  is_planned-Any :
      (scripts : List (PlannedScript Node)) (expected : List (Bytes × Bytes))
      → filter (λ e. not (is_planned e.0 scripts)) expected ≡ []
      → All (λ x. Any (λ e. e.snapshot.instance_path ≡ x.0) scripts) expected
  is_planned-Any scripts [] h = tt
  is_planned-Any scripts (x ∷ xs) h = elim (Bool-cases (is_planned x.0 scripts)) [
    | inl p ↦ (
      any-Any (λ e. same e.snapshot.instance_path x.0) _ scripts p
          (λ e k. same-≡ e.snapshot.instance_path x.0 k),
      is_planned-Any scripts xs (sym (rw (p)) ∙ h),
    )
    | inr n ↦ ground arith
  ]

insert_sorted-not_nil :
    (e : Bytes × Bytes) (es : List (Bytes × Bytes)) → insert_sorted e es ≡ [] → ⊥
unfolding insert_sorted
insert_sorted-not_nil e [] h = cc
insert_sorted-not_nil e (f ∷ fs) h = ground arith

sort-nil : (es : List (Bytes × Bytes)) → sort es ≡ [] → es ≡ []
unfolding sort
sort-nil [] h = refl
sort-nil (e ∷ es) h = absurd (insert_sorted-not_nil e (sort es) h)

append_nil_parts {ℓ} : {A : Type ℓ} (xs ys : List A) → xs ++ ys ≡ [] → (xs ≡ []) × (ys ≡ [])
append_nil_parts [] ys h = (refl, h)
append_nil_parts (x ∷ xs) ys h = cc

module _ {Node W : Type 0} (c : ReplaceCorpus Node W) (w : W) where
  check_all_reviewed-nil : (es : List (Bytes × Bytes)) → check_all_reviewed c w es ≡ ok [] → es ≡ []
  unfolding check_all_reviewed
  check_all_reviewed-nil [] h = refl
  check_all_reviewed-nil (e ∷ es) h =
      let (m, _, h1) = >>=-ok (check_reviewed c w e) _ h in
      let (ms, _, h2) = >>=-ok (check_all_reviewed c w es) _ h1 in
      let many : m ∷ ms ≡ [] = ok_inj h2 in cc

  pub check_revisions-IsReviewed :
      (scripts : List (PlannedScript Node)) (expected : List (Bytes × Bytes))
      → check_revisions c w scripts expected ≡ ok []
      → IsReviewed expected scripts
  unfolding check_revisions
  check_revisions-IsReviewed scripts expected h =
      let unplanned = filter (λ e. not (is_planned e.0 scripts)) expected in
      let (ms, r, h1) = >>=-ok (check_all_reviewed c w (sort unplanned)) _ h in
      let (planned, rest) = append_nil_parts (check_planned expected scripts) ms (ok_inj h1) in
      let none_left : sort unplanned ≡ [] =
        check_all_reviewed-nil (sort unplanned) (r ∙ ap ok rest) in
      (
        check_planned-nil expected scripts planned,
        is_planned-Any scripts expected (sort-nil unplanned none_left),
      )
