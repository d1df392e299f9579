-- ===== src/Logs/Escape.antt =====
-- Malformed messages and the history that a plugin starts with, in
-- studio-plugin/src/modules/RuntimeLogBuffer.ts.
use Prim.Native.Nat.{◌/◌, ◌%◌}
use robloxstudio_mcp.Bytes.{Bytes, drop}
use robloxstudio_mcp.Shared.{
  ℕ, zero, suc, ◌+◌, ◌-◌, Bool, true, false, Option, none, some, List, [], ◌∷◌, ◌++◌, ◌&&◌, length,
  ltb, leb, if◌then◌else◌, or_else, ◌≤◌, ◌<◌, ◌≡◌, ◌⊎◌, refl, arith, Bool-cases, inl, inr,
}
use robloxstudio_mcp.Json.{Value}
use robloxstudio_mcp.Luau.{sub, nibble}
use robloxstudio_mcp.Logs.{LogBuffer, MessageType, push_safe}

-- What `utf8.len(s, i)` says: valid from there on, the position of the first invalid byte, or
-- neither.
pub data Utf8 : Type 0 where
  valid : Utf8
  invalid : ℕ → Utf8
  unclear : Utf8

-- `string.format("\\x%02X", byte)` of the byte that a suffix starts with.
unfoldable pub escaped : Bytes → Bytes
escaped [] = []
escaped (b ∷ rest) = 92 ∷ 120 ∷ nibble (b / 16) ∷ nibble (b % 16) ∷ []

-- The loop of `escapeInvalidUtf8`; `utf8_len` is Luau's.
unfoldable pub escape_loop : (Bytes → ℕ → Utf8) → ℕ → Bytes → ℕ → Bytes
escape_loop utf8_len zero msg cursor = []
escape_loop utf8_len (suc fuel) msg cursor = elim (leb cursor (length msg)) [
  | false ↦ []
  | true ↦ elim (utf8_len msg cursor) [
    | valid ↦ sub msg cursor (length msg)
    | unclear ↦ []
    | invalid p ↦
        (if ltb cursor p then sub msg cursor (p - 1) else [])
        ++ escaped (drop (p - 1) msg)
        ++ escape_loop utf8_len fuel msg (p + 1)
  ]
]

unfoldable pub escape_invalid_utf8 : (Bytes → ℕ → Utf8) → Bytes → Bytes
escape_invalid_utf8 utf8_len msg = elim (utf8_len msg 1) [
  | valid ↦ msg
  | _ ↦ escape_loop utf8_len (length msg) msg 1
]

Utf8-cases : (u : Utf8) → ((p : ℕ) × (u ≡ invalid p)) ⊎ ((u ≡ valid) ⊎ (u ≡ unclear))
Utf8-cases valid = inr (inl refl)
Utf8-cases (invalid p) = inl (p, refl)
Utf8-cases unclear = inr (inr refl)

-- Where utf8.len reports no position before the one it is asked from, the escaping of a malformed
-- message gives the same result for every fuel above the bytes that are left.
pub escape_loop-fuel :
    (utf8_len : Bytes → ℕ → Utf8) (msg : Bytes) (fuel more cursor : ℕ)
    → ((s : Bytes) (i p : ℕ) → utf8_len s i ≡ invalid p → i ≤ p)
    → length msg < cursor + fuel
    → fuel ≤ more
    → escape_loop utf8_len more msg cursor ≡ escape_loop utf8_len fuel msg cursor
unfolding escape_loop
escape_loop-fuel utf8_len msg zero zero cursor forward h k = refl
escape_loop-fuel utf8_len msg (suc fuel) zero cursor forward h k = absurd (omega arith)
escape_loop-fuel utf8_len msg zero (suc more) cursor forward h k =
    let past : leb cursor (length msg) ≡ false = ground arith in rw (past, escape_loop) refl
escape_loop-fuel utf8_len msg (suc fuel) (suc more) cursor forward h k =
    elim (Bool-cases (leb cursor (length msg))) [
      | inr past ↦ rw (past, escape_loop) refl
      | inl there ↦ elim (Utf8-cases (utf8_len msg cursor)) [
        | inl (p, e) ↦
            rw
              (
                there,
                e,
                escape_loop,
                escape_loop-fuel utf8_len msg fuel more (p + 1) forward
                    (omega (arith, forward msg cursor p e)) (omega arith),
              )
              refl
        | inr (inl e) ↦ rw (there, e, escape_loop) refl
        | inr (inr e) ↦ rw (there, e, escape_loop) refl
      ]
    ]

unfoldable pub push_entry :
    (Bytes → ℕ → Utf8) → Bytes → MessageType → ℕ → Option Value → LogBuffer → LogBuffer
push_entry utf8_len msg t ts context b = push_safe (escape_invalid_utf8 utf8_len msg) t ts context b

-- `LogHistoryEntry`; a message or a timestamp of another type is `none`.
pub record HistoryEntry : Type 0 where
  pub message : Option Bytes
  pub message_type : MessageType
  pub timestamp : Option ℕ

-- In edit mode, entries of an earlier Studio process are skipped.
abbrev pub is_foreign : Bool → ℕ → Option ℕ → Bool
is_foreign is_edit started none = is_edit
is_foreign is_edit started (some t) = is_edit && ltb (t + 1) started

unfoldable pub seed_entry : (Bytes → ℕ → Utf8) → Bool → ℕ → ℕ → HistoryEntry → LogBuffer → LogBuffer
seed_entry utf8_len is_edit started now e b = elim e.message [
  | none ↦ b
  | some msg ↦
      if is_foreign is_edit started e.timestamp
      then b
      else push_entry utf8_len msg e.message_type (or_else e.timestamp now) none b
]

unfoldable pub seed_runtime_history :
    (Bytes → ℕ → Utf8) → Bool → ℕ → ℕ → List HistoryEntry → LogBuffer → LogBuffer
seed_runtime_history utf8_len is_edit started now [] b = b
seed_runtime_history utf8_len is_edit started now (e ∷ es) b =
    seed_runtime_history utf8_len is_edit started now es
      (seed_entry utf8_len is_edit started now e b)
