-- ===== src/Edits/Lines.antt =====
-- The binary search of `lineAt` in studio-plugin/src/modules/ScriptEdits.ts.
use robloxstudio_mcp.Bytes.{Bytes}
use robloxstudio_mcp.Shared.{
  ℕ, zero, suc, ◌+◌, ◌-◌, ◌/◌, ◌≤◌, ◌<◌, ◌≡◌, List, length, ltb, leb, arith, Bool-cases, inl, inr,
  subst, sym,
}
use robloxstudio_mcp.Edits.{nth, line_search, line_at, line_starts}

-- The line is there, it starts at the offset or before, and the next one, if any, after it.
abbrev pub Contains : List ℕ → ℕ → ℕ → Type 0
Contains starts offset at =
    (at < length starts)
    × (nth starts at ≤ offset)
    × (at + 1 < length starts → offset < nth starts (at + 1))

line_search-Contains :
    (fuel : ℕ) (starts : List ℕ) (offset low high : ℕ)
    → high < low + fuel
    → low ≤ high
    → high < length starts
    → nth starts low ≤ offset
    → (high + 1 < length starts → offset < nth starts (high + 1))
    → Contains starts offset (line_search fuel starts offset low high)
unfolding line_search
line_search-Contains zero starts offset low high f o h l u = absurd (omega arith)
line_search-Contains (suc fuel) starts offset low high f o h l u =
    let middle : ℕ = (low + high + 1) / 2 in
    let goal : ℕ → Type 0 = Contains starts offset in
    elim (Bool-cases (ltb low high)) [
      | inr met ↦
          let same : high ≡ low = ground (arith, met) in
          let done : line_search (suc fuel) starts offset low high ≡ low = rw (met, line_search) in
          subst goal (sym done) (
            omega arith,
            l,
            subst (λ k. k + 1 < length starts → offset < nth starts (k + 1)) same u,
          )
      | inl apart ↦ elim (Bool-cases (leb (nth starts middle) offset)) [
        | inl before ↦
            let right : line_search (suc fuel) starts offset low high
                ≡ line_search fuel starts offset middle high =
              rw (apart, before, line_search) in
            subst goal (sym right) (
              line_search-Contains fuel starts offset middle high (ground (arith, apart))
                (ground (arith, apart)) h (ground (arith, before)) u)
        | inr after ↦
            let left : line_search (suc fuel) starts offset low high
                ≡ line_search fuel starts offset low (middle - 1) =
              rw (apart, after, line_search) in
            let next : middle - 1 + 1 ≡ middle = ground (arith, apart) in
            subst goal (sym left) (
              line_search-Contains fuel starts offset low (middle - 1) (ground (arith, apart))
                (ground (arith, apart)) (ground (arith, apart)) l
                (λ _. subst (λ k. offset < nth starts k) (sym next) (ground (arith, after))))
      ]
    ]

-- For an offset of at least 1, the binary search over the starts of a source's lines finds a line
-- of the source that starts at the offset or before it while the next line, if there is one,
-- starts after it.
pub line_at_lem :
    (source : Bytes) (offset : ℕ)
    → 1 ≤ offset
    → Contains (line_starts source) offset (line_at (line_starts source) offset - 1)
unfolding line_at line_starts nth
line_at_lem source offset h =
    let starts : List ℕ = line_starts source in
    subst (Contains starts offset) (omega arith) (
      line_search-Contains (length starts) starts offset 0 (length starts - 1) (omega arith)
        (omega arith) (omega arith) h (λ l. absurd (omega arith)))
