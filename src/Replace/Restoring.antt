-- ===== src/Replace/Restoring.antt =====
-- The restoring of studio-plugin/src/modules/ScriptReplace.ts against the sources of the scripts.
use robloxstudio_mcp.Bytes.{Bytes, same-≡}
use robloxstudio_mcp.Shared.{
  ℕ, ◌≡◌, ◌≢◌, refl, Bool, true, false, Option, none, some, List, [], ◌∷◌, ◌⊎◌, inl, inr, sym, ◌∙◌,
  ap, subst, Bool-cases, All, Result, ok, err,
}
use std.Logic.{Discrete}
use robloxstudio_mcp.Replace.{
  ScriptSnapshot, WriteResult, written, unwritten, ReplaceCorpus, PlannedScript,
}
use robloxstudio_mcp.Replace.Apply.{
  Change, change, restored, holds_source, holds, restore_loop, spend, unrestored, is_restore_failed,
}

-- What `writeScript` and `readScript` do to the sources that scripts hold: an accepted write puts
-- its text, a refused one puts it or changes nothing, no other script is touched, and a script that
-- holds a source can be read.
pub record IsCompareAndSet {Node W : Type 0} (c : ReplaceCorpus Node W)
    (source : W → Node → Option Bytes) : Type 0 where
  pub accepts :
      (w : W) (n : Node) (new old : Bytes)
      → (c.write_script w n new old).1 ≡ written
      → source (c.write_script w n new old).0 n ≡ some new
  pub refuses :
      (w : W) (n : Node) (new old : Bytes) (e : Option Bytes)
      → (c.write_script w n new old).1 ≡ unwritten e
      → (source (c.write_script w n new old).0 n ≡ source w n)
        ⊎ (source (c.write_script w n new old).0 n ≡ some new)
  pub keeps :
      (w : W) (n m : Node) (new old : Bytes)
      → m ≢ n
      → source (c.write_script w n new old).0 m ≡ source w m
  pub reads :
      (w : W) (n : Node) (f : Option Bytes) (s : ScriptSnapshot)
      → c.read_script w n f ≡ ok (some s)
      → source w n ≡ some s.source
  pub readable :
      (w : W) (n : Node) (text : Bytes)
      → source w n ≡ some text
      → (s : ScriptSnapshot) × (c.read_script w n none ≡ ok (some s)) × (s.source ≡ text)
  pub begins : (w : W) (m : Node) → source (c.begin_recording w).0 m ≡ source w m
  pub finishes :
      (w : W) (r : Option Bytes) (commit : Bool) (m : Node)
      → source (c.finish_recording w r commit) m ≡ source w m

pub WriteResult-cases : (r : WriteResult) → (r ≡ written) ⊎ ((e : Option Bytes) × (r ≡ unwritten e))
WriteResult-cases written = inl refl
WriteResult-cases (unwritten e) = inr (e, refl)

holds_source-read :
    (r : Result Bytes (Option ScriptSnapshot)) (text : Bytes)
    → holds_source r text ≡ true
    → (s : ScriptSnapshot) × (r ≡ ok (some s)) × (s.source ≡ text)
holds_source-read (ok (some s)) text h = (s, refl, same-≡ s.source text h)
holds_source-read (ok none) text h = cc
holds_source-read (err e) text h = cc

abbrev pub Among : {Node : Type 0} → Node → List (PlannedScript Node) → Type 0
Among m [] = ⊥
Among m (e ∷ es) = (m ≡ e.node) ⊎ Among m es

-- A change with the status `restore_failed` is that of the node.
abbrev pub Reported : {Node : Type 0} → Node → List (Change Node) → Type 0
Reported m [] = ⊥
Reported m (x ∷ xs) = ((m ≡ x.script.node) × (is_restore_failed x ≡ true)) ⊎ Reported m xs

-- The snapshot's source is what the script held.
abbrev pub Holds : {Node : Type 0} → (Node → Option Bytes) → PlannedScript Node → Type 0
Holds base e = base e.node ≡ some e.snapshot.source

module _ {Node W : Type 0} (c : ReplaceCorpus Node W) (source : W → Node → Option Bytes)
    (cas : IsCompareAndSet c source) (identity : Discrete Node) (base : Node → Option Bytes) where
  abbrev pub Kept : W → List (PlannedScript Node) → List (Change Node) → Type 0
  Kept w pending after = (m : Node) → (source w m ≡ base m) ⊎ (Among m pending ⊎ Reported m after)

  step_restored :
      (w v : W) (e : PlannedScript Node) (es : List (PlannedScript Node)) (x : Change Node)
      (after : List (Change Node))
      → Kept w (e ∷ es) after
      → source v e.node ≡ base e.node
      → ((m : Node) → m ≢ e.node → source v m ≡ source w m)
      → Kept v es (x ∷ after)
  step_restored w v e es x after k here else_same m = elim (identity m e.node) [
    | yes p ↦ inl (subst (λ n. source v n ≡ base n) (sym p) here)
    | no q ↦ elim (k m) [
      | inl same_m ↦ inl (else_same m q ∙ same_m)
      | inr (inl (inl p)) ↦ absurd (q p)
      | inr (inl (inr among)) ↦ inr (inl among)
      | inr (inr reported) ↦ inr (inr (inr reported))
    ]
  ]

  step_unrestored :
      (w v : W) (e : PlannedScript Node) (es : List (PlannedScript Node)) (x : Change Node)
      (after : List (Change Node))
      → Kept w (e ∷ es) after
      → e.node ≡ x.script.node
      → is_restore_failed x ≡ true
      → ((m : Node) → m ≢ e.node → source v m ≡ source w m)
      → Kept v es (x ∷ after)
  step_unrestored w v e es x after k here bad else_same m = elim (identity m e.node) [
    | yes p ↦ inr (inr (inl (p ∙ here, bad)))
    | no q ↦ elim (k m) [
      | inl same_m ↦ inl (else_same m q ∙ same_m)
      | inr (inl (inl p)) ↦ absurd (q p)
      | inr (inl (inr among)) ↦ inr (inl among)
      | inr (inr reported) ↦ inr (inr (inr reported))
    ]
  ]

  holds-source :
      (w : W) (n : Node) (text : Bytes) → holds c w n text ≡ true → source w n ≡ some text
  unfolding holds
  holds-source w n text h =
      let (s, e, t) = holds_source-read (c.read_script w n none) text h in
      cas.reads w n none s e ∙ ap some t

  abbrev undo : W → PlannedScript Node → W × WriteResult
  undo w e = c.write_script w e.node e.snapshot.source e.new_source

  restored_by_write :
      (w : W) (budget : ℕ) (e : PlannedScript Node) (es : List (PlannedScript Node))
      (after : List (Change Node))
      → (undo w e).1 ≡ written
      → restore_loop c w budget (e ∷ es) after
        ≡ restore_loop c (undo w e).0 budget es (change restored e ∷ after)
  unfolding restore_loop
  restored_by_write w budget e es after done = rw (done, restore_loop)

  restored_anyway :
      (w : W) (budget : ℕ) (e : PlannedScript Node) (es : List (PlannedScript Node))
      (after : List (Change Node)) (error : Option Bytes)
      → (undo w e).1 ≡ unwritten error
      → holds c (undo w e).0 e.node e.snapshot.source ≡ true
      → restore_loop c w budget (e ∷ es) after
        ≡ restore_loop c (undo w e).0 budget es (change restored e ∷ after)
  unfolding restore_loop
  restored_anyway w budget e es after error refused held = rw (refused, held, restore_loop)

  not_restored :
      (w : W) (budget : ℕ) (e : PlannedScript Node) (es : List (PlannedScript Node))
      (after : List (Change Node)) (error : Option Bytes)
      → (undo w e).1 ≡ unwritten error
      → holds c (undo w e).0 e.node e.snapshot.source ≡ false
      → restore_loop c w budget (e ∷ es) after
        ≡ restore_loop c (undo w e).0 (spend budget e) es (unrestored budget e error ∷ after)
  unfolding restore_loop
  not_restored w budget e es after error refused lost = rw (refused, lost, restore_loop)

  pub restore_loop-Kept :
      (w : W) (budget : ℕ) (es : List (PlannedScript Node)) (after : List (Change Node))
      → All (Holds base) es
      → Kept w es after
      → Kept (restore_loop c w budget es after).0 [] (restore_loop c w budget es after).1
  unfolding restore_loop
  restore_loop-Kept w budget [] after g k = k
  restore_loop-Kept w budget (e ∷ es) after g k =
      let original = e.snapshot.source in
      let v : W = (c.write_script w e.node original e.new_source).0 in
      let others : (m : Node) → m ≢ e.node → source v m ≡ source w m =
        λ m. cas.keeps w e.node m original e.new_source in
      let goal : W × List (Change Node) → Type 0 = λ r. Kept r.0 [] r.1 in
      elim (WriteResult-cases (c.write_script w e.node original e.new_source).1) [
        | inl done ↦ subst goal (sym (restored_by_write w budget e es after done)) (
            restore_loop-Kept v budget es (change restored e ∷ after) g.1 (
              step_restored w v e es (change restored e) after k
                (cas.accepts w e.node original e.new_source done ∙ sym g.0) others))
        | inr (error, refused) ↦ elim (Bool-cases (holds c v e.node original)) [
          | inl held ↦ subst goal (sym (restored_anyway w budget e es after error refused held)) (
              restore_loop-Kept v budget es (change restored e ∷ after) g.1 (
                step_restored w v e es (change restored e) after k
                  (holds-source v e.node original held ∙ sym g.0) others))
          | inr lost ↦ subst goal (sym (not_restored w budget e es after error refused lost)) (
              restore_loop-Kept v (spend budget e) es (unrestored budget e error ∷ after) g.1
                (step_unrestored w v e es (unrestored budget e error) after k refl refl others))
        ]
      ]
