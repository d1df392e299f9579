-- ===== src/Edits/Positions.antt =====
-- Where the old texts of a plan stand: `locateEdit` of studio-plugin/src/modules/ScriptEdits.ts.
use robloxstudio_mcp.Bytes.{drop_zero, Bytes, same, take, drop, length-drop, drop_add, same-≡}
use robloxstudio_mcp.Shared.{
  ℕ, zero, suc, ◌+◌, ◌-◌, ◌≤◌, ◌<◌, ◌≡◌, true, false, none, some, List, [], ◌∷◌, ◌==◌, length, ltb,
  arith, Bool-cases, Option-cases, inl, inr, ap, subst,
}
use robloxstudio_mcp.Luau.{sub, find_plain, find_from, starts_with}
use robloxstudio_mcp.Luau.Laws.{starts_with-take, find_from-some, find_from-none, find_from-first}
use robloxstudio_mcp.Edits.{
  ScriptEditRequest, Located, empty_search, not_found, located, misplaced, locate_at_line,
  locate_once, locate_edit, starts_loop, line_starts, nth,
}

-- The old text of a request stands at a position.
abbrev pub StandsAt : Bytes → Bytes → ℕ → Type 0
StandsAt source old start = (1 ≤ start) × (take (length old) (drop (start - 1) source) ≡ old)

abbrev place : ℕ → Located → ℕ
place at (located p) = p
place at (misplaced error) = at

position : {a b : ℕ} → located a ≡ located b → a ≡ b
position {a} {b} e = ap (place a) e

find_first-StandsAt :
    (source old : Bytes) (first : ℕ)
    → find_plain source old 1 ≡ some first
    → StandsAt source old first
unfolding find_plain drop
find_first-StandsAt source old first e =
    let whole : drop 0 source ≡ source = drop_zero source in
    let found : find_from old 1 (drop (1 - 1) source) ≡ some first = ground arith in
    let (far, there) = find_from-some old 1 (drop (1 - 1) source) first found in
    (far, starts_with-take old _ (rw (← whole) there))

found_once :
    (source : Bytes) (starts : List ℕ) (old : Bytes) (at : ℕ)
    → locate_once source starts old ≡ located at
    → (find_plain source old 1 ≡ some at) × (find_plain source old (at + 1) ≡ none)
unfolding locate_once
found_once source starts old at h = elim (Bool-cases (length old == 0)) [
  | inl blank ↦ let k : misplaced empty_search ≡ located at = rw (blank, locate_once) at h in cc
  | inr long ↦ elim (Option-cases (find_plain source old 1)) [
    | inl e ↦ let k : misplaced not_found ≡ located at = rw (long, e, locate_once) at h in cc
    | inr (first, e) ↦ elim (Option-cases (find_plain source old (first + 1))) [
      | inl only ↦
          let k : located first ≡ located at = rw (long, e, only, locate_once) at h in
          subst (λ p. (find_plain source old 1 ≡ some p) × (find_plain source old (p + 1) ≡ none))
            (position k) (e, only)
      | inr (second, f) ↦ let k = rw (long, e, f, locate_once) at h in cc
    ]
  ]
]

pub locate_once-StandsAt :
    (source : Bytes) (starts : List ℕ) (old : Bytes) (at : ℕ)
    → locate_once source starts old ≡ located at
    → StandsAt source old at
unfolding locate_once find_plain
locate_once-StandsAt source starts old at h =
    find_first-StandsAt source old at (found_once source starts old at h).0

locate_at_line-StandsAt :
    (source : Bytes) (starts : List ℕ) (old : Bytes) (line at : ℕ)
    → ((i : ℕ) → i < length starts → 1 ≤ nth starts i)
    → locate_at_line source starts old line ≡ located at
    → StandsAt source old at
unfolding locate_at_line
locate_at_line-StandsAt source starts old line at pos h = elim (Bool-cases (ltb line 1)) [
  | inl low ↦ let k = rw (low, locate_at_line) at h in cc
  | inr whole ↦ elim (Bool-cases (ltb (length starts) line)) [
    | inl past ↦ let k = rw (whole, past, locate_at_line) at h in cc
    | inr within ↦
        elim (Bool-cases (
          same (sub source (nth starts (line - 1)) (nth starts (line - 1) + length old - 1)) old)) [
            | inr other ↦ let k = rw (whole, within, other, locate_at_line) at h in cc
            | inl found ↦
                let k : located (nth starts (line - 1)) ≡ located at =
                  rw (whole, within, found, locate_at_line) at h in
                let far : 1 ≤ nth starts (line - 1) = pos (line - 1) (ground arith) in
                subst (StandsAt source old) (position k) (
                  far,
                  subst (λ k. take k (drop (nth starts (line - 1) - 1) source) ≡ old) (omega arith)
                      (same-≡ _ old found),
                )
          ]
  ]
]

nth-positive :
    (s : ℕ) (starts : List ℕ) (i : ℕ)
    → 1 ≤ s
    → ((j : ℕ) → j < length starts → 1 ≤ nth starts j)
    → i < length (s ∷ starts)
    → 1 ≤ nth (s ∷ starts) i
unfolding nth
nth-positive s starts i first rest h = ground (arith, rest (i - 1))

starts_loop-positive :
    (fuel : ℕ) (source : Bytes) (from i : ℕ)
    → i < length (starts_loop fuel source from)
    → 1 ≤ nth (starts_loop fuel source from) i
unfolding starts_loop nth
starts_loop-positive zero source from i h = absurd (omega arith)
starts_loop-positive (suc fuel) source from i h =
    elim (Option-cases (find_plain source (10 ∷ []) from)) [
      | inl e ↦ let k = rw (e, starts_loop) at h in absurd (omega arith)
      | inr (newline, e) ↦
          let k : i < suc (length (starts_loop fuel source (newline + 1))) =
            rw (e, starts_loop) at h in
          rw (e, starts_loop)
            (nth-positive (newline + 1) (starts_loop fuel source (newline + 1)) i (omega arith)
              (starts_loop-positive fuel source (newline + 1)) k)
    ]

line_starts-positive :
    (source : Bytes) (i : ℕ) → i < length (line_starts source) → 1 ≤ nth (line_starts source) i
unfolding line_starts nth
line_starts-positive source i h =
    nth-positive 1 (starts_loop (length source) source 1) i (omega arith)
      (starts_loop-positive (length source) source 1) h

pub locate_edit-StandsAt :
    (source : Bytes) (q : ScriptEditRequest) (at : ℕ)
    → locate_edit source (line_starts source) q ≡ located at
    → StandsAt source q.old_string at
unfolding locate_edit
locate_edit-StandsAt source q at h = elim (Option-cases q.start_line) [
  | inl e ↦
      locate_once-StandsAt source (line_starts source) q.old_string at (rw (e, locate_edit) at h)
  | inr (line, e) ↦
      locate_at_line-StandsAt source (line_starts source) q.old_string line at
        (line_starts-positive source) (rw (e, locate_edit) at h)
]

-- Where a text is located without a line number, every place in the source at which the text
-- stands is the position found.
pub locate_once_unique :
    (source : Bytes) (starts : List ℕ) (old : Bytes) (at n : ℕ)
    → locate_once source starts old ≡ located at
    → n < length source
    → starts_with old (drop n source) ≡ true
    → n + 1 ≡ at
unfolding locate_once find_plain
locate_once_unique source starts old at n h l there =
    let (first, only) = found_once source starts old at h in
    let before : find_from old 1 (drop (1 - 1) source) ≡ some at = ground arith in
    let (far, here) = find_from-some old 1 (drop (1 - 1) source) at before in
    elim (Bool-cases (ltb (n + 1) at)) [
      | inl early ↦
          let gone = find_from-first old 1 (drop (1 - 1) source) at n before (ground arith) in
          let gone' : starts_with old (drop n source) ≡ false =
            subst (λ s. starts_with old (drop n s) ≡ false) (drop_zero source) gone in
          cc
      | inr late ↦ elim (Bool-cases (ltb at (n + 1))) [
        | inr same_place ↦ ground arith
        | inl later ↦
            let rest : find_from old (at + 1) (drop (at + 1 - 1) source) ≡ none = ground arith in
            let gone =
              find_from-none old (at + 1) (drop (at + 1 - 1) source) (n - at) rest
                (ground (arith, length-drop (at + 1 - 1) source)) in
            let gone' : starts_with old (drop n source) ≡ false =
              subst (λ k. starts_with old (drop k source) ≡ false) (ground arith)
                (subst (λ s. starts_with old s ≡ false) (drop_add (n - at) (at + 1 - 1) source)
                  gone) in
            cc
      ]
    ]
