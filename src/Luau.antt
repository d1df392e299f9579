-- ===== src/Luau.antt =====
-- The Luau strings of the studio-plugin modules: byte sequences, with the library functions that
-- the modules call. Positions are 1-based.
pub mod Laws
use robloxstudio_mcp.Bytes.{Bytes, take, drop}
use robloxstudio_mcp.Shared.{
  ℕ, zero, suc, ◌+◌, ◌-◌, Bool, true, false, Option, none, some, List, [], ◌∷◌, ◌++◌, ◌&&◌, ◌==◌,
  length, ltb, if◌then◌else◌,
}

-- `string.sub(s, first, last)` for a `first` of at least 1.
abbrev pub sub : Bytes → ℕ → ℕ → Bytes
sub s first last = take (last + 1 - first) (drop (first - 1) s)

unfoldable pub starts_with : Bytes → Bytes → Bool
starts_with [] s = true
starts_with (n ∷ needle) [] = false
starts_with (n ∷ needle) (b ∷ s) = (n == b) && starts_with needle s

-- The first position of a needle in `s`, which stands at position `at`.
unfoldable pub find_from : Bytes → ℕ → Bytes → Option ℕ
find_from needle at [] = if starts_with needle [] then some at else none
find_from needle at (b ∷ s) =
    if starts_with needle (b ∷ s) then some at else find_from needle (at + 1) s

-- `string.find(s, needle, init, true)` for an `init` of at least 1.
unfoldable pub find_plain : Bytes → Bytes → ℕ → Option ℕ
find_plain s needle init =
    if ltb (length s + 1) init then none else find_from needle init (drop (init - 1) s)

abbrev pub nibble : ℕ → ℕ
nibble d = if ltb d 10 then 48 + d else 55 + d
