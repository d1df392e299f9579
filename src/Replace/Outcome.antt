-- ===== src/Replace/Outcome.antt =====
-- The writes of studio-plugin/src/modules/ScriptReplace.ts against the sources of the scripts.
use robloxstudio_mcp.Bytes.{Bytes, same, same_refl}
use robloxstudio_mcp.Shared.{
  ◌≡◌, ◌≢◌, refl, true, Option, some, List, [], ◌∷◌, map, ◌⊎◌, inl, inr, sym, ◌∙◌, subst,
  Bool-cases, All,
}
use std.Logic.{Discrete}
use robloxstudio_mcp.Replace.{WriteResult, written, unwritten, ReplaceCorpus, PlannedScript}
use robloxstudio_mcp.Replace.Apply.{
  Change, change, Written, wrote_all, stopped, write_loop, not_attempted, failed, holds,
  restore_loop, restore_all,
}
use robloxstudio_mcp.Replace.Restoring.{
  IsCompareAndSet, Among, Reported, Holds, Kept, restore_loop-Kept, WriteResult-cases,
}

-- The node's script is one of those planned, and holds its new source.
abbrev pub Rewritten :
    {Node W : Type 0} → (W → Node → Option Bytes) → W → Node → List (PlannedScript Node) → Type 0
Rewritten source w m [] = ⊥
Rewritten source w m (e ∷ es) =
    ((m ≡ e.node) × (source w m ≡ some e.new_source)) ⊎ Rewritten source w m es

-- Every planned script holds its new source, and every other one what it held.
abbrev pub AllRewritten :
    {Node W : Type 0} → (W → Node → Option Bytes) → W → W → List (PlannedScript Node) → Type 0
AllRewritten source w v es =
    (m : _) → ((¬ Among m es) × (source v m ≡ source w m)) ⊎ Rewritten source v m es

-- Every script that is not reported as one whose restoring failed holds what it held.
abbrev pub RestoredOrReported :
    {Node W : Type 0}
    → (W → Node → Option Bytes)
    → (Node → Option Bytes)
    → W
    → List (Change Node)
    → Type 0
RestoredOrReported source base v changes = (m : _) → (source v m ≡ base m) ⊎ Reported m changes

module _ {Node W : Type 0} (c : ReplaceCorpus Node W) (source : W → Node → Option Bytes)
    (cas : IsCompareAndSet c source) (identity : Discrete Node) (base : Node → Option Bytes) where
  abbrev write : W → PlannedScript Node → W × WriteResult
  write w e = c.write_script w e.node e.new_source e.snapshot.source

  others_kept :
      (w : W) (e : PlannedScript Node) (m : Node) → m ≢ e.node → source (write w e).0 m ≡ source w m
  others_kept w e m = cas.keeps w e.node m e.new_source e.snapshot.source

  write_loop-written :
      (w : W) (before : List (PlannedScript Node)) (e : PlannedScript Node)
      (es : List (PlannedScript Node))
      → (write w e).1 ≡ written
      → write_loop c w before (e ∷ es) ≡ write_loop c (write w e).0 (e ∷ before) es
  unfolding write_loop
  write_loop-written w before e es done = rw (done, write_loop)

  write_loop-unwritten :
      (w : W) (before : List (PlannedScript Node)) (e : PlannedScript Node)
      (es : List (PlannedScript Node)) (error : Option Bytes)
      → (write w e).1 ≡ unwritten error
      → write_loop c w before (e ∷ es) ≡ ((write w e).0, stopped before e error es)
  unfolding write_loop
  write_loop-unwritten w before e es error refused = rw (refused, write_loop)

  abbrev pub IfWritten : W → List (PlannedScript Node) → W × Written Node → Type 0
  IfWritten w es (v, wrote_all) = AllRewritten source w v es
  IfWritten w es (v, stopped before e error after) = Unit

  -- Where a write is refused, the scripts before it may have been written, and its own.
  abbrev pub IfStopped : W × Written Node → Type 0
  IfStopped (v, wrote_all) = Unit
  IfStopped (v, stopped before e error after) =
      All (Holds base) before
      × Holds base e
      × ((m : Node)
          → (source v m ≡ base m)
            ⊎ (Among m before ⊎ ((m ≡ e.node) × (source v m ≡ some e.new_source))))

  pub write_loop-IfStopped :
      (w : W) (before es : List (PlannedScript Node))
      → All (Holds base) before
      → All (Holds base) es
      → ((m : Node) → (source w m ≡ base m) ⊎ Among m before)
      → IfStopped (write_loop c w before es)
  unfolding write_loop
  write_loop-IfStopped w before [] b g k = tt
  write_loop-IfStopped w before (e ∷ es) b g k = elim (WriteResult-cases (write w e).1) [
    | inl done ↦ subst IfStopped (sym (write_loop-written w before e es done)) (
        write_loop-IfStopped (write w e).0 (e ∷ before) es (g.0, b) g.1
          (λ m. elim (identity m e.node) [
            | yes p ↦ inr (inl p)
            | no q ↦ elim (k m) [
              | inl same_m ↦ inl (others_kept w e m q ∙ same_m)
              | inr among ↦ inr (inr among)
            ]
          ]))
    | inr (error, refused) ↦
        subst IfStopped (sym (write_loop-unwritten w before e es error refused)) (
          b,
          g.0,
          λ m. elim (k m) [
            | inr among ↦ inr (inl among)
            | inl same_m ↦ elim (identity m e.node) [
              | no q ↦ inl (others_kept w e m q ∙ same_m)
              | yes p ↦ elim (cas.refuses w e.node e.new_source e.snapshot.source error refused) [
                | inl still ↦ inl (
                    subst (λ n. source (write w e).0 n ≡ base n) (sym p)
                      (still ∙ subst (λ n. source w n ≡ base n) p same_m))
                | inr landed ↦ inr (
                    inr (p, subst (λ n. source (write w e).0 n ≡ some e.new_source) (sym p) landed))
              ]
            ]
          ],
        )
  ]

  overlay_first :
      (w v : W) (e : PlannedScript Node) (es : List (PlannedScript Node))
      → source w e.node ≡ some e.new_source
      → AllRewritten source w v es
      → (m : Node) → ((m ≡ e.node) ⊎ (m ≢ e.node))
      → ((¬ Among m (e ∷ es)) × (source v m ≡ source w m)) ⊎ Rewritten source v m (e ∷ es)
  overlay_first w v e es here all m d = elim (all m) [
    | inr later ↦ inr (inr later)
    | inl (not_later, same_m) ↦ elim d [
      | inl p ↦ inr (inl (p, same_m ∙ subst (λ n. source w n ≡ some e.new_source) (sym p) here))
      | inr q ↦ inl (λ a. elim a [ inl p ↦ q p | inr b ↦ not_later b ], same_m)
    ]
  ]

  decided : (m n : Node) → (m ≡ n) ⊎ (m ≢ n)
  decided m n = elim (identity m n) [ yes p ↦ inl p | no q ↦ inr q ]

  from_start :
      (w : W) (e : PlannedScript Node) (es : List (PlannedScript Node)) (r : W × Written Node)
      → source (write w e).0 e.node ≡ some e.new_source
      → IfWritten (write w e).0 es r
      → IfWritten w (e ∷ es) r
  from_start w e es (v, wrote_all) here all = λ m.
      elim (overlay_first (write w e).0 v e es here all m (decided m e.node)) [
        | inl (not_among, same_m) ↦
            inl (not_among, same_m ∙ others_kept w e m (λ p. not_among (inl p)))
        | inr later ↦ inr later
      ]
  from_start w e es (v, stopped before f error after) here all = tt

  pub write_loop-IfWritten :
      (w : W) (before es : List (PlannedScript Node)) → IfWritten w es (write_loop c w before es)
  unfolding write_loop
  write_loop-IfWritten w before [] = λ m. inl (λ a. a, refl)
  write_loop-IfWritten w before (e ∷ es) = elim (WriteResult-cases (write w e).1) [
    | inl done ↦ subst (IfWritten w (e ∷ es)) (sym (write_loop-written w before e es done)) (
        from_start w e es (write_loop c (write w e).0 (e ∷ before) es)
          (cas.accepts w e.node e.new_source e.snapshot.source done)
          (write_loop-IfWritten (write w e).0 (e ∷ before) es))
    | inr (error, refused) ↦
        subst (IfWritten w (e ∷ es)) (sym (write_loop-unwritten w before e es error refused)) tt
  ]

  unpending :
      (r : W × List (Change Node))
      → Kept c source cas identity base r.0 [] r.1
      → RestoredOrReported source base r.0 r.1
  unpending r k m = elim (k m) [
    | inl same_m ↦ inl same_m
    | inr (inl never) ↦ absurd never
    | inr (inr reported) ↦ inr reported
  ]

  readable-holds :
      (w : W) (n : Node) (text : Bytes) → source w n ≡ some text → holds c w n text ≡ true
  unfolding holds
  readable-holds w n text e =
      let (s, r, t) = cas.readable w n text e in
      rw (r) (subst (λ k. same s.source k ≡ true) t (same_refl s.source))

  pub restore_all-Restored :
      (w : W) (before : List (PlannedScript Node)) (e : PlannedScript Node) (error : Option Bytes)
      (after : List (PlannedScript Node))
      → IfStopped (w, stopped before e error after)
      → RestoredOrReported source base
          (restore_all c w before e after).0
          (restore_all c w before e after).1
  unfolding restore_all
  restore_all-Restored w before e error after (b, g, k) =
      let rest : List (Change Node) = map (change not_attempted) after in
      elim (Bool-cases (holds c w e.node e.new_source)) [
        | inl landed ↦ rw (landed) (
            unpending (restore_loop c w 200000 (e ∷ before) rest) (
              restore_loop-Kept c source cas identity base w 200000 (e ∷ before) rest (g, b)
                (λ m. elim (k m) [
                  | inl same_m ↦ inl same_m
                  | inr (inl among) ↦ inr (inl (inr among))
                  | inr (inr (p, q)) ↦ inr (inl (inl p))
                ])))
        | inr missed ↦ rw (missed) (
            unpending (restore_loop c w 200000 before (change failed e ∷ rest)) (
              restore_loop-Kept c source cas identity base w 200000 before (change failed e ∷ rest)
                b
                (λ m. elim (k m) [
                  | inl same_m ↦ inl same_m
                  | inr (inl among) ↦ inr (inl among)
                  | inr (inr (p, q)) ↦
                      let seen =
                        readable-holds w e.node e.new_source
                          (subst (λ n. source w n ≡ some e.new_source) p q) in
                      let k = rw (missed) at seen in cc
                ])))
      ]
