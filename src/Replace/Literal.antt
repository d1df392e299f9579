-- ===== src/Replace/Literal.antt =====
-- `replaceLiteral` of studio-plugin/src/modules/ScriptReplace.ts and where it replaces.
use robloxstudio_mcp.Bytes.{
  Bytes, take, drop, drop_zero, take-drop, length-drop, length-take, drop_add, take_all,
}
use robloxstudio_mcp.Shared.{
  ℕ, zero, suc, ◌+◌, ◌-◌, ◌≤◌, ◌≡◌, refl, Bool, true, false, Option, none, some, [], ◌∷◌, ◌++◌,
  ◌==◌, if◌then◌else◌, length, arith, ap, sym, ◌∙◌, subst, Option-cases, Bool-cases, inl, inr, ltb,
}
use robloxstudio_mcp.Luau.{sub, find_plain, starts_with, find_from}
use robloxstudio_mcp.Luau.Laws.{find_from-some}
use robloxstudio_mcp.Replace.{lower, replace_loop, replace_literal}

-- `t` is `s` with `n` occurrences of `needle` replaced, each the leftmost one after the last; `view`
-- is how the texts are compared.
pub data Replaced (view : Bytes → Bytes) (needle replacement : Bytes)
    : Bytes → Bytes → ℕ → Type 0 where
  no_more :
      (s : Bytes) → find_plain (view s) needle 1 ≡ none → Replaced view needle replacement s s 0
  one_more :
      (gap old s t : Bytes) (n : ℕ)
      → find_plain (view (gap ++ (old ++ s))) needle 1 ≡ some (length gap + 1)
      → length old ≡ length needle
      → Replaced view needle replacement s t n
      → Replaced view needle replacement (gap ++ (old ++ s)) (gap ++ (replacement ++ t)) (suc n)

abbrev pub view_of : Bool → Bytes → Bytes
view_of case_sensitive s = if case_sensitive then s else lower s

starts_with-length : (needle s : Bytes) → starts_with needle s ≡ true → length needle ≤ length s
unfolding starts_with
starts_with-length [] s h = omega arith
starts_with-length (n ∷ needle) [] h = cc
starts_with-length (n ∷ needle) (b ∷ s) h = ground (arith, starts_with-length needle s)

abbrev shift : ℕ → Option ℕ → Option ℕ
shift k none = none
shift k (some p) = some (p + k)

find_from-shift :
    (needle : Bytes) (at k : ℕ) (s : Bytes)
    → find_from needle (at + k) s ≡ shift k (find_from needle at s)
unfolding find_from
find_from-shift needle at k [] = elim (Bool-cases (starts_with needle [])) [
  | inl here ↦ rw (here) refl
  | inr gone ↦ rw (gone) refl
]
find_from-shift needle at k (b ∷ s) = elim (Bool-cases (starts_with needle (b ∷ s))) [
  | inl here ↦ rw (here) refl
  | inr later ↦
      rw (later)
        (ap (λ j. find_from needle j s) (omega arith) ∙ find_from-shift needle (at + 1) k s)
]

-- A search from a cursor within the text is a search of what follows it.
find_plain-cursor :
    (s needle : Bytes) (cursor : ℕ)
    → 1 ≤ cursor
    → cursor ≤ length s + 1
    → find_plain s needle cursor ≡ shift (cursor - 1) (find_plain (drop (cursor - 1) s) needle 1)
unfolding find_plain
find_plain-cursor s needle cursor l h =
    let within : ltb (length s + 1) cursor ≡ false = ground arith in
    let first : ltb (length (drop (cursor - 1) s) + 1) 1 ≡ false = ground arith in
    rw (within, first, drop_zero (drop (cursor - 1) s))
      (ap (λ j. find_from needle j (drop (cursor - 1) s)) (omega arith)
        ∙ find_from-shift needle 1 (cursor - 1) (drop (cursor - 1) s))

found_within :
    (s needle : Bytes) (q : ℕ)
    → 1 ≤ length needle
    → find_plain s needle 1 ≡ some q
    → (1 ≤ q) × (q - 1 + length needle ≤ length s)
unfolding find_plain
found_within s needle q l h =
    let first : ltb (length s + 1) 1 ≡ false = ground arith in
    let found : find_from needle 1 s ≡ some q = rw (first, drop_zero s) at h in
    let (far, there) = find_from-some needle 1 s q found in
    let long = starts_with-length needle (drop (q - 1) s) there in
    (far, omega (arith, length-drop (q - 1) s))

module _ (view : Bytes → Bytes) (length-view : (s : Bytes) → length (view s) ≡ length s)
    (view-drop : (n : ℕ) (s : Bytes) → view (drop n s) ≡ drop n (view s))
    (needle replacement : Bytes) where
  abbrev loop : ℕ → Bytes → ℕ → Bytes × ℕ
  loop fuel source cursor = replace_loop fuel source (view source) needle replacement cursor

  loop-none :
      (fuel : ℕ) (source : Bytes) (cursor : ℕ)
      → find_plain (view source) needle cursor ≡ none
      → loop (suc fuel) source cursor ≡ (sub source cursor (length source), 0)
  unfolding replace_loop
  loop-none fuel source cursor e = rw (e, replace_loop)

  loop-some :
      (fuel : ℕ) (source : Bytes) (cursor found : ℕ)
      → find_plain (view source) needle cursor ≡ some found
      → loop (suc fuel) source cursor ≡ (
        sub source cursor (found - 1)
            ++ (replacement ++ (loop fuel source (found + length needle)).0),
        (loop fuel source (found + length needle)).1 + 1,
      )
  unfolding replace_loop
  loop-some fuel source cursor found e = rw (e, replace_loop)

  rest_of :
      (source : Bytes) (cursor : ℕ)
      → 1 ≤ cursor
      → sub source cursor (length source) ≡ drop (cursor - 1) source
  rest_of source cursor l =
      take_all (length source + 1 - cursor) (drop (cursor - 1) source)
        (omega (arith, length-drop (cursor - 1) source))

  split_found :
      (rest : Bytes) (q : ℕ)
      → take (q - 1) rest
          ++ (take (length needle) (drop (q - 1) rest) ++ drop (q - 1 + length needle) rest)
        ≡ rest
  split_found rest q =
      ap (λ t. take (q - 1) rest ++ t)
        (ap (λ t. take (length needle) (drop (q - 1) rest) ++ t)
            (sym (drop_add (length needle) (q - 1) rest))
          ∙ take-drop (length needle) (drop (q - 1) rest))
      ∙ take-drop (q - 1) rest

  -- One round, from the first occurrence in what is left.
  one_round :
      (rest t : Bytes) (q n : ℕ)
      → 1 ≤ q
      → q - 1 + length needle ≤ length rest
      → find_plain (view rest) needle 1 ≡ some q
      → Replaced view needle replacement (drop (q - 1 + length needle) rest) t n
      → Replaced view needle replacement rest (take (q - 1) rest ++ (replacement ++ t)) (suc n)
  one_round rest t q n far long found later =
      let gap : Bytes = take (q - 1) rest in
      let old : Bytes = take (length needle) (drop (q - 1) rest) in
      let s : Bytes = drop (q - 1 + length needle) rest in
      let whole : gap ++ (old ++ s) ≡ rest = split_found rest q in
      let l_gap : length gap ≡ q - 1 = length-take (q - 1) rest (omega arith) in
      let l_old : length old ≡ length needle =
        length-take (length needle) (drop (q - 1) rest) (omega (arith, length-drop (q - 1) rest)) in
      subst (λ k. Replaced view needle replacement k (gap ++ (replacement ++ t)) (suc n)) whole
        (one_more gap old s t n
          (ap (λ k. find_plain (view k) needle 1) whole ∙ (found ∙ ap some (omega (arith, l_gap))))
          l_old later)

  loop-Replaced :
      (fuel : ℕ) (source : Bytes) (cursor : ℕ)
      → 1 ≤ length needle
      → 1 ≤ cursor
      → cursor ≤ length source + 1
      → length source + 2 ≤ fuel + cursor
      → Replaced view needle replacement
          (drop (cursor - 1) source)
          (loop fuel source cursor).0
          (loop fuel source cursor).1
  loop-Replaced zero source cursor l c h f = absurd (omega arith)
  loop-Replaced (suc fuel) source cursor l c h f =
      let rest : Bytes = drop (cursor - 1) source in
      let at : find_plain (view source) needle cursor
          ≡ shift (cursor - 1) (find_plain (view rest) needle 1) =
        find_plain-cursor (view source) needle cursor c (omega (arith, length-view source))
        ∙ ap (λ t. shift (cursor - 1) (find_plain t needle 1))
            (sym (view-drop (cursor - 1) source)) in
      let goal : Bytes × ℕ → Type 0 = λ r. Replaced view needle replacement rest r.0 r.1 in
      elim (Option-cases (find_plain (view rest) needle 1)) [
        | inl gone ↦
            subst goal
              (sym (
                loop-none fuel source cursor (at ∙ ap (shift (cursor - 1)) gone)
                ∙ ap (λ t. (t, 0)) (rest_of source cursor c)))
              (no_more rest gone)
        | inr (q, found) ↦
            let (far, long) = found_within (view rest) needle q l found in
            let l_rest : length (view rest) ≡ length source - (cursor - 1) =
              length-view rest ∙ length-drop (cursor - 1) source in
            let next : ℕ = q + (cursor - 1) + length needle in
            let r : Bytes × ℕ = loop fuel source next in
            let later : Replaced view needle replacement (drop (q - 1 + length needle) rest) r.0
                r.1 =
              subst (λ k. Replaced view needle replacement k r.0 r.1)
                (ap (λ k. drop k source) (omega arith)
                  ∙ sym (drop_add (q - 1 + length needle) (cursor - 1) source))
                (loop-Replaced fuel source next l (omega arith) (omega arith) (omega arith)) in
            let sound : Replaced view needle replacement rest
                (take (q - 1) rest ++ (replacement ++ r.0)) (suc r.1) =
              one_round rest r.0 q r.1 far (omega (arith, length-view rest)) found later in
            subst goal
              (sym (
                loop-some fuel source cursor (q + (cursor - 1))
                  (at ∙ ap (shift (cursor - 1)) found)))
              (subst
                (λ k.
                  Replaced view needle replacement rest (take k rest ++ (replacement ++ r.0))
                    (r.1 + 1))
                (omega arith)
                (subst
                  (λ k.
                    Replaced view needle replacement rest
                      (take (q - 1) rest ++ (replacement ++ r.0)) k)
                  (omega arith) sound))
      ]

length-lower : (s : Bytes) → length (lower s) ≡ length s
length-lower [] = refl
length-lower (b ∷ s) = ap suc (length-lower s)

lower-drop : (n : ℕ) (s : Bytes) → lower (drop n s) ≡ drop n (lower s)
unfolding drop
lower-drop n [] = refl
lower-drop zero (b ∷ s) = refl
lower-drop (suc n) (b ∷ s) = lower-drop n s

unreplaced :
    {view : Bytes → Bytes} {needle replacement s t : Bytes} {n : ℕ}
    → Replaced view needle replacement s t n
    → n ≡ 0
    → Replaced view needle replacement s s 0
unreplaced (no_more s gone) e = no_more s gone
unreplaced (one_more gap old s t n found l later) e = absurd (omega arith)

literal : Bytes → Bytes × ℕ → Bytes × ℕ
literal source (result, count) = if count == 0 then (source, 0) else (result, count)

literal-Replaced :
    (view : Bytes → Bytes) (needle replacement source : Bytes) (r : Bytes × ℕ)
    → Replaced view needle replacement (drop (1 - 1) source) r.0 r.1
    → Replaced view needle replacement source (literal source r).0 (literal source r).1
unfolding literal
literal-Replaced view needle replacement source (t, n) p =
    let whole : Replaced view needle replacement source t n =
      subst (λ k. Replaced view needle replacement k t n) (drop_zero source) p in
    elim (Bool-cases (n == 0)) [
      | inl none_found ↦ rw (none_found) (unreplaced whole (ground (arith, none_found)))
      | inr some_found ↦ rw (some_found) whole
    ]

-- Literal replacement of a text that is not empty, compared with or without case, replaces the
-- leftmost occurrence, goes on after it until there is none, keeps all else, and counts the
-- replacements.
pub replace_literal-Replaced :
    (source search replacement : Bytes) (case_sensitive : Bool)
    → 1 ≤ length search
    → Replaced
        (view_of case_sensitive)
        (view_of case_sensitive search)
        replacement
        source
        (replace_literal source search replacement case_sensitive).0
        (replace_literal source search replacement case_sensitive).1
unfolding replace_literal literal
replace_literal-Replaced source search replacement true l =
    literal-Replaced (λ s. s) search replacement source
      (replace_loop (length source + 1) source source search replacement 1)
      (loop-Replaced (λ s. s) (λ s. refl) (λ n s. refl) search replacement (length source + 1)
        source 1 l (omega arith) (omega arith) (omega arith))
replace_literal-Replaced source search replacement false l =
    literal-Replaced lower (lower search) replacement source
      (replace_loop (length source + 1) source (lower source) (lower search) replacement 1)
      (loop-Replaced lower length-lower lower-drop (lower search) replacement (length source + 1)
        source 1 (omega (arith, length-lower search)) (omega arith) (omega arith) (omega arith))
