-- ===== src/Edits/Splices.antt =====
-- What a planned script is: the source with each edit's old text replaced by its new one.
use mathlib.Core.List.{Perm, perm_middle}
use mathlib.Core.List.Perm
use robloxstudio_mcp.Bytes.{
  drop_zero, Bytes, take, drop, take-drop, length-drop, drop_add, take_all,
}
use robloxstudio_mcp.Shared.{
  ℕ, ◌+◌, ◌-◌, ◌≤◌, ◌≡◌, refl, Bool, none, List, [], ◌∷◌, ◌++◌, ◌||◌, ◌==◌, length, ltb, map, arith,
  Bool-cases, Option-cases, inl, inr, append-nil, ◌⊎◌, ap, subst, append_assoc, ◌∙◌,
}
use robloxstudio_mcp.Luau.{sub}
use robloxstudio_mcp.Edits.{
  EditError, Refusal, resolved_edit, ScriptEditRequest, ResolvedEdit, Located, located, misplaced,
  locate_edit, line_starts, apply_within, insert_edit, reverse_onto, resolve_edits, Resolved,
  resolved, unresolved, first_overlap, finish_plan, plan_script_edits, ScriptEditPlan, planned,
  refused,
}
use robloxstudio_mcp.Edits.Positions.{StandsAt, locate_edit-StandsAt}

-- `t` is `s` with the old texts, from left to right, replaced by the new ones and all else kept.
pub data Splice : Bytes → Bytes → List (Bytes × Bytes) → Type 0 where
  kept : (s : Bytes) → Splice s s []
  replaced :
      (gap old new s t : Bytes) (es : List (Bytes × Bytes))
      → Splice s t es
      → Splice (gap ++ old ++ s) (gap ++ new ++ t) ((old, new) ∷ es)

abbrev pub change : Bytes → ResolvedEdit → Bytes × Bytes
change source e = (take (e.finish - e.start) (drop (e.start - 1) source), e.new_string)

abbrev pub request_change : ScriptEditRequest → Bytes × Bytes
request_change q = (q.old_string, q.new_string)

abbrev Placed : ResolvedEdit → Type 0
Placed e = (1 ≤ e.start) × (e.start ≤ e.finish)

abbrev AllPlaced : List ResolvedEdit → Type 0
AllPlaced [] = Unit
AllPlaced (e ∷ es) = Placed e × AllPlaced es

-- Each edit begins where the one before has ended, or later.
abbrev Chained : ℕ → List ResolvedEdit → Type 0
Chained cursor [] = Unit
Chained cursor (e ∷ es) = (cursor ≤ e.start) × Chained e.finish es

first_overlap-Chained :
    (starts : List ℕ) (cursor : ℕ) (e : ResolvedEdit) (es : List ResolvedEdit)
    → first_overlap starts (e ∷ es) ≡ none
    → cursor ≤ e.start
    → Chained cursor (e ∷ es)
unfolding first_overlap
first_overlap-Chained starts cursor e [] h c = (c, tt)
first_overlap-Chained starts cursor e (f ∷ es) h c =
    elim (Bool-cases (ltb f.start e.finish || (f.start == e.start))) [
      | inl clash ↦ let k = rw (clash, first_overlap) at h in cc
      | inr apart ↦
          let k : first_overlap starts (f ∷ es) ≡ none = rw (apart, first_overlap) at h in
          (c, first_overlap-Chained starts e.finish f es k (ground arith))
    ]

split_at_edit :
    (source : Bytes) (cursor : ℕ) (e : ResolvedEdit)
    → Placed e
    → 1 ≤ cursor
    → cursor ≤ e.start
    → sub source cursor (e.start - 1) ++ (change source e).0 ++ drop (e.finish - 1) source
      ≡ drop (cursor - 1) source
split_at_edit source cursor e p c l =
    let old : take (e.finish - e.start) (drop (e.start - 1) source) ++ drop (e.finish - 1) source
        ≡ drop (e.start - 1) source =
      subst
        (λ k.
          take (e.finish - e.start) (drop (e.start - 1) source) ++ drop k source
          ≡ drop (e.start - 1) source)
        (omega (arith, p.0, p.1))
        (subst
          (λ s.
            take (e.finish - e.start) (drop (e.start - 1) source) ++ s ≡ drop (e.start - 1) source)
          (drop_add (e.finish - e.start) (e.start - 1) source)
          (take-drop (e.finish - e.start) (drop (e.start - 1) source))) in
    let gap : take (e.start - 1 + 1 - cursor) (drop (cursor - 1) source)
          ++ drop (e.start - 1) source
        ≡ drop (cursor - 1) source =
      subst
        (λ k.
          take (e.start - 1 + 1 - cursor) (drop (cursor - 1) source) ++ drop k source
          ≡ drop (cursor - 1) source)
        (omega (arith, p.0))
        (subst
          (λ s.
            take (e.start - 1 + 1 - cursor) (drop (cursor - 1) source) ++ s
            ≡ drop (cursor - 1) source)
          (drop_add (e.start - 1 + 1 - cursor) (cursor - 1) source)
          (take-drop (e.start - 1 + 1 - cursor) (drop (cursor - 1) source))) in
    append_assoc (sub source cursor (e.start - 1)) (change source e).0 (drop (e.finish - 1) source)
    ∙ ap (λ u. sub source cursor (e.start - 1) ++ u) old
    ∙ gap

apply-Splice :
    (source : Bytes) (cursor : ℕ) (es : List ResolvedEdit)
    → AllPlaced es
    → Chained cursor es
    → 1 ≤ cursor
    → Splice
        (drop (cursor - 1) source)
        (apply_within source es cursor (length source + 1))
        (map (change source) es)
unfolding apply_within
apply-Splice source cursor [] p c l =
    rw
      (take_all (length source + 1 - 1 + 1 - cursor) (drop (cursor - 1) source)
        (omega (arith, length-drop (cursor - 1) source)))
      (kept (drop (cursor - 1) source))
apply-Splice source cursor (e ∷ es) p c l =
    subst
      (λ s.
        Splice s (apply_within source (e ∷ es) cursor (length source + 1))
          (map (change source) (e ∷ es)))
      (split_at_edit source cursor e p.0 l c.0)
      (replaced (sub source cursor (e.start - 1)) _ e.new_string _ _ _
        (apply-Splice source e.finish es p.1 c.1 (omega (arith, p.0.0, p.0.1))))

insert_edit-Perm :
    (source : Bytes) (e : ResolvedEdit) (es : List ResolvedEdit)
    → Perm (map (change source) (insert_edit e es)) (change source e ∷ map (change source) es)
unfolding insert_edit
insert_edit-Perm source e [] = Perm.refl _
insert_edit-Perm source e (f ∷ es) = elim (Bool-cases (ltb e.start f.start)) [
  | inl before ↦
      rw (before, insert_edit)
        (Perm.trans (Perm.cons _ (insert_edit-Perm source e es)) (Perm.swap _ _ _))
  | inr after ↦ rw (after, insert_edit) (Perm.refl _)
]

insert_edit-AllPlaced :
    (e : ResolvedEdit) (es : List ResolvedEdit)
    → Placed e
    → AllPlaced es
    → AllPlaced (insert_edit e es)
unfolding insert_edit
insert_edit-AllPlaced e [] p ps = (p, tt)
insert_edit-AllPlaced e (f ∷ es) p ps = elim (Bool-cases (ltb e.start f.start)) [
  | inl before ↦ rw (before, insert_edit) (ps.0, insert_edit-AllPlaced e es p ps.1)
  | inr after ↦ rw (after, insert_edit) (p, ps)
]

reverse_onto-AllPlaced :
    (es out : List ResolvedEdit) → AllPlaced es → AllPlaced out → AllPlaced (reverse_onto es out)
unfolding reverse_onto
reverse_onto-AllPlaced [] out p q = q
reverse_onto-AllPlaced (e ∷ es) out p q = reverse_onto-AllPlaced es (e ∷ out) p.1 (p.0, q)

reverse_onto-Perm :
    (source : Bytes) (es out : List ResolvedEdit)
    → Perm
        (map (change source) (reverse_onto es out))
        (map (change source) es ++ map (change source) out)
unfolding reverse_onto
reverse_onto-Perm source [] out = Perm.refl _
reverse_onto-Perm source (e ∷ es) out =
    Perm.trans (reverse_onto-Perm source es (e ∷ out)) (perm_middle _ _)

Located-cases :
    (l : Located) → ((at : ℕ) × (l ≡ located at)) ⊎ ((error : EditError) × (l ≡ misplaced error))
Located-cases (located at) = inl (at, refl)
Located-cases (misplaced error) = inr (error, refl)

abbrev edits_or : List ResolvedEdit → Resolved → List ResolvedEdit
edits_or none_of (resolved es) = es
edits_or none_of (unresolved refusal) = none_of

edits_of : {bs es : List ResolvedEdit} → resolved bs ≡ resolved es → bs ≡ es
edits_of {bs} {es} h = ap (edits_or bs) h

change-request :
    (source : Bytes) (index : ℕ) (q : ScriptEditRequest) (at : ℕ)
    → StandsAt source q.old_string at
    → change source (resolved_edit index q at) ≡ request_change q
change-request source index q at stands =
    ap (λ old. (old, q.new_string))
      (subst (λ n. take n (drop (at - 1) source) ≡ q.old_string) (omega arith) stands.1)

resolve_edits-lem :
    (source : Bytes) (several : Bool) (index : ℕ) (qs : List ScriptEditRequest)
    (done es : List ResolvedEdit)
    → AllPlaced done
    → resolve_edits source (line_starts source) several index qs done ≡ resolved es
    → AllPlaced es
      × Perm (map (change source) es) (map request_change qs ++ map (change source) done)
unfolding resolve_edits
resolve_edits-lem source several index [] done es p h =
    subst (λ l. AllPlaced l × Perm (map (change source) l) (map (change source) done)) (edits_of h)
      (
        reverse_onto-AllPlaced done [] p tt,
        subst (λ l. Perm (map (change source) (reverse_onto done [])) l) (append-nil _)
            (reverse_onto-Perm source done []),
      )
resolve_edits-lem source several index (q ∷ qs) done es p h =
    elim (Located-cases (locate_edit source (line_starts source) q)) [
      | inr (error, e) ↦ let k = rw (e, resolve_edits) at h in cc
      | inl (at, e) ↦
          let stands = locate_edit-StandsAt source q at e in
          let r = resolved_edit index q at in
          let (all, perm) =
            resolve_edits-lem source several (index + 1) qs (insert_edit r done) es
              (insert_edit-AllPlaced r done (stands.0, omega arith) p)
              (rw (e, resolve_edits) at h) in
          (
            all,
            Perm.trans perm (
                Perm.trans
                  (Perm.append (Perm.refl (map request_change qs)) (insert_edit-Perm source r done))
                  (subst
                    (λ c.
                      Perm (map request_change qs ++ change source r ∷ map (change source) done)
                        (c ∷ (map request_change qs ++ map (change source) done)))
                    (change-request source index q at stands) (perm_middle _ _))),
          )
    ]

Resolved-cases :
    (r : Resolved)
    → ((es : List ResolvedEdit) × (r ≡ resolved es))
      ⊎ ((refusal : Refusal) × (r ≡ unresolved refusal))
Resolved-cases (resolved es) = inl (es, refl)
Resolved-cases (unresolved refusal) = inr (refusal, refl)

abbrev script_or : Bytes → ScriptEditPlan → Bytes
script_or source (planned new) = new
script_or source (refused refusal) = source

script_of : {s t : Bytes} → planned s ≡ planned t → s ≡ t
script_of {s} {t} h = ap (script_or s) h

all-Chained :
    (starts : List ℕ) (es : List ResolvedEdit)
    → first_overlap starts es ≡ none
    → AllPlaced es
    → Chained 1 es
all-Chained starts [] h p = tt
all-Chained starts (e ∷ es) h p = first_overlap-Chained starts 1 e es h p.0.0

-- An accepted plan applies every requested edit exactly once: the new source is the source with
-- each old text replaced by its new one, in the order in which they stand, and everything between
-- them kept.
pub plan_script_edits-Splice :
    (source new : Bytes) (edits : List ScriptEditRequest)
    → plan_script_edits source edits ≡ planned new
    → (changes : List (Bytes × Bytes)) × Splice source new changes
      × Perm changes (map request_change edits)
unfolding plan_script_edits finish_plan
plan_script_edits-Splice source new [] h = cc
plan_script_edits-Splice source new (q ∷ qs) h =
    let starts = line_starts source in
    let several = ltb 1 (length (q ∷ qs)) in
    elim (Resolved-cases (resolve_edits source starts several 0 (q ∷ qs) [])) [
      | inr (refusal, e) ↦ let k = rw (e, finish_plan) at h in cc
      | inl (es, e) ↦ elim (Option-cases (first_overlap starts es)) [
        | inr (error, f) ↦ let k = rw (e, finish_plan, f) at h in cc
        | inl f ↦
            let (all, perm) = resolve_edits-lem source several 0 (q ∷ qs) [] es tt e in
            let k = rw (e, finish_plan, f) at h in
            (
              map (change source) es,
              subst (λ s. Splice s new (map (change source) es)) (drop_zero source)
                  (subst (λ t. Splice (drop (1 - 1) source) t (map (change source) es))
                    (script_of k)
                    (apply-Splice source 1 es all (all-Chained starts es f all) (omega arith))),
              subst (Perm (map (change source) es)) (append-nil _) perm,
            )
      ]
    ]
