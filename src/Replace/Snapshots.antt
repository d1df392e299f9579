-- ===== src/Replace/Snapshots.antt =====
-- The snapshots of `planScripts` in studio-plugin/src/modules/ScriptReplace.ts.
use robloxstudio_mcp.Bytes.{Bytes}
use robloxstudio_mcp.Shared.{
  ℕ, zero, suc, ◌≡◌, Option, some, List, [], ◌∷◌, ◌++◌, map, All, ◌==◌, ltb, Bool-cases,
  Option-cases, inl, inr, subst, ok, >>=-ok, ok_inj,
}
use robloxstudio_mcp.Replace.{
  ScriptSnapshot, Forest, none_left, tree, ReplaceCorpus, ReplaceRequest, PlannedScript,
}
use robloxstudio_mcp.Replace.Request.{matches_class_filter}
use robloxstudio_mcp.Replace.Planning.{
  Gsub, Plan, replace_in, plan_script, visit, push, plan_loop, size, mark_shared, path_count,
  plan_scripts,
}
use robloxstudio_mcp.Replace.Restoring.{IsCompareAndSet, Holds}

module _ {Node W : Type 0} (c : ReplaceCorpus Node W) (source : W → Node → Option Bytes)
    (cas : IsCompareAndSet c source) (gsub : Gsub) (w : W) (request : ReplaceRequest) where
  abbrev AllHold : Plan Node → Type 0
  AllHold plan = All (Holds (source w)) plan.planned

  append-AllHold :
      (es fs : List (PlannedScript Node))
      → All (Holds (source w)) es
      → All (Holds (source w)) fs
      → All (Holds (source w)) (es ++ fs)
  append-AllHold [] fs a b = b
  append-AllHold (e ∷ es) fs a b = (a.0, append-AllHold es fs a.1 b)

  plan_script-AllHold :
      (node : Node) (s : ScriptSnapshot) (plan next : Plan Node)
      → source w node ≡ some s.source
      → plan_script c gsub w request node s plan ≡ ok next
      → AllHold plan
      → AllHold next
  unfolding plan_script
  plan_script-AllHold node s plan next here e a =
      let ((new_source, n), er, e1) = >>=-ok (replace_in gsub request s.source) _ e in
      subst AllHold (ok_inj e1) (elim (Bool-cases (n == 0)) [
        | inl unchanged ↦ rw (unchanged) a
        | inr some_replaced ↦ rw (some_replaced) (append-AllHold plan.planned _ a (here, tt))
      ])

  visit-AllHold :
      (node : Node) (plan next : Plan Node)
      → visit c gsub w request node plan ≡ ok next
      → AllHold plan
      → AllHold next
  unfolding visit
  visit-AllHold node plan next e a =
      let (found, er, e1) = >>=-ok (c.read_script w node request.class_filter) _ e in
      elim (Option-cases found) [
        | inl absent ↦ subst AllHold (ok_inj (rw (absent) at e1)) a
        | inr (s, there) ↦
            elim (Bool-cases (matches_class_filter s.class_name request.class_filter)) [
              | inl wanted ↦
                  plan_script-AllHold node s plan next
                    (cas.reads w node request.class_filter s (rw (there) at er))
                    (rw (there, wanted) at e1) a
              | inr filtered ↦ subst AllHold (ok_inj (rw (there, filtered) at e1)) a
            ]
      ]

  plan_loop-AllHold :
      (fuel : ℕ) (stack : Forest Node) (plan last : Plan Node)
      → plan_loop fuel c gsub w request stack plan ≡ ok last
      → AllHold plan
      → AllHold last
  unfolding plan_loop
  plan_loop-AllHold zero stack plan last e a = subst AllHold (ok_inj e) a
  plan_loop-AllHold (suc fuel) none_left plan last e a = subst AllHold (ok_inj e) a
  plan_loop-AllHold (suc fuel) (tree n below stack) plan last e a =
      let (next, en, e1) = >>=-ok (visit c gsub w request n plan) _ e in
      plan_loop-AllHold fuel (push below stack) next last e1 (visit-AllHold n plan next en a)

  mark_shared-Holds :
      (all : List (PlannedScript Node)) (e : PlannedScript Node)
      → Holds (source w) e
      → Holds (source w) (mark_shared all e)
  mark_shared-Holds all e h = elim (Bool-cases (ltb 1 (path_count e.snapshot.instance_path all))) [
    | inl shared ↦ rw (shared) h
    | inr alone ↦ rw (alone) h
  ]

  marked :
      (all es : List (PlannedScript Node))
      → All (Holds (source w)) es
      → All (Holds (source w)) (map (mark_shared all) es)
  marked all [] a = tt
  marked all (e ∷ es) a = (mark_shared-Holds all e a.0, marked all es a.1)

  pub plan_scripts-AllHold :
      (root : Node) (plan : Plan Node)
      → plan_scripts c gsub w request root ≡ ok plan
      → All (Holds (source w)) plan.planned
  unfolding plan_scripts
  plan_scripts-AllHold root plan e =
      let whole : Forest Node = tree root (c.descendants w root) none_left in
      let (last, el, e1) =
        >>=-ok
          (plan_loop (size whole) c gsub w request whole (record { planned = []; searched = 0 })) _
          e in
      subst (λ p. All (Holds (source w)) p.planned) (ok_inj e1)
        (marked last.planned last.planned (plan_loop-AllHold (size whole) whole _ last el tt))
