-- ===== src/Edits/Revisions.antt =====
-- `sourceRevision` of studio-plugin/src/modules/ScriptEdits.ts.
use robloxstudio_mcp.Bytes.{Bytes, take, drop, take-drop, length-drop, bit_xor}
use robloxstudio_mcp.Shared.{
  ℕ, zero, suc, ◌+◌, ◌*◌, ◌/◌, ◌%◌, ◌≤◌, ◌≡◌, refl, [], ◌∷◌, ◌++◌, length, ltb, if◌then◌else◌,
  arith, ap, ◌∙◌,
}

-- One byte: `bit32.lshift(hash, 24)` keeps 32 bits.
unfoldable pub fnv_step : ℕ → ℕ → ℕ
fnv_step hash byte =
    let mixed = bit_xor 32 hash byte in (mixed * 16777216 % 4294967296 + mixed * 403) % 4294967296

-- The loop over the bytes of a chunk.
unfoldable pub fnv_bytes : ℕ → Bytes → ℕ
fnv_bytes hash [] = hash
fnv_bytes hash (byte ∷ rest) = fnv_bytes (fnv_step hash byte) rest

-- The loop over chunks of 4096 bytes, on fuel.
unfoldable pub fnv_chunks : ℕ → ℕ → Bytes → ℕ
fnv_chunks zero hash source = hash
fnv_chunks (suc fuel) hash [] = hash
fnv_chunks (suc fuel) hash (byte ∷ rest) =
    fnv_chunks fuel (fnv_bytes hash (take 4096 (byte ∷ rest))) (drop 4096 (byte ∷ rest))

digits : ℕ → ℕ → Bytes
digits zero n = []
digits (suc fuel) n =
    let front = digits fuel (n / 10) in
    if ltb n 10 then (48 + n) ∷ [] else front ++ (48 + n % 10) ∷ []

-- A whole number in an interpolated string.
unfoldable pub decimal : ℕ → Bytes
unfolding digits
decimal n = digits (n + 1) n

unfoldable pub source_revision : Bytes → Bytes
source_revision source =
    decimal (length source) ++ (58 ∷ decimal (fnv_chunks (length source) 2166136261 source))

-- FNV-1a on 32 bits: each byte is mixed in and the hash multiplied by the prime 16777619.
unfoldable pub fnv1a : ℕ → Bytes → ℕ
fnv1a hash [] = hash
fnv1a hash (byte ∷ rest) = fnv1a (bit_xor 32 hash byte * 16777619 % 4294967296) rest

fnv_step-prime : (hash byte : ℕ) → fnv_step hash byte ≡ bit_xor 32 hash byte * 16777619 % 4294967296
unfolding fnv_step
fnv_step-prime hash byte = omega arith

fnv_bytes-fnv1a : (hash : ℕ) (s : Bytes) → fnv_bytes hash s ≡ fnv1a hash s
unfolding fnv_bytes fnv1a
fnv_bytes-fnv1a hash [] = refl
fnv_bytes-fnv1a hash (byte ∷ s) =
    ap (λ h. fnv_bytes h s) (fnv_step-prime hash byte)
    ∙ fnv_bytes-fnv1a (bit_xor 32 hash byte * 16777619 % 4294967296) s

fnv1a-append : (hash : ℕ) (s t : Bytes) → fnv1a (fnv1a hash s) t ≡ fnv1a hash (s ++ t)
unfolding fnv1a
fnv1a-append hash [] t = refl
fnv1a-append hash (byte ∷ s) t = fnv1a-append (bit_xor 32 hash byte * 16777619 % 4294967296) s t

fnv_chunks-fnv1a :
    (fuel hash : ℕ) (s : Bytes) → length s ≤ fuel → fnv_chunks fuel hash s ≡ fnv1a hash s
unfolding fnv_chunks fnv1a
fnv_chunks-fnv1a zero hash [] h = refl
fnv_chunks-fnv1a zero hash (byte ∷ s) h = absurd (omega arith)
fnv_chunks-fnv1a (suc fuel) hash [] h = refl
fnv_chunks-fnv1a (suc fuel) hash (byte ∷ s) h =
    fnv_chunks-fnv1a fuel (fnv_bytes hash (take 4096 (byte ∷ s))) (drop 4096 (byte ∷ s))
      (omega (arith, length-drop 4096 (byte ∷ s)))
    ∙ ap (λ k. fnv1a k (drop 4096 (byte ∷ s))) (fnv_bytes-fnv1a hash (take 4096 (byte ∷ s)))
    ∙ fnv1a-append hash (take 4096 (byte ∷ s)) (drop 4096 (byte ∷ s))
    ∙ ap (fnv1a hash) (take-drop 4096 (byte ∷ s))

-- A script's revision is its length and the 32-bit FNV-1a hash of its bytes: the chunks of 4096
-- bytes and the split product give what mixing in each byte and multiplying by 16777619 gives.
pub source_revision-fnv1a :
    (source : Bytes)
    → source_revision source ≡ decimal (length source) ++ (58 ∷ decimal (fnv1a 2166136261 source))
unfolding source_revision
source_revision-fnv1a source =
    ap (λ h. decimal (length source) ++ (58 ∷ decimal h))
      (fnv_chunks-fnv1a (length source) 2166136261 source (omega arith))
