-- ===== src/Bridge/Roles.antt =====
-- Roles of peers in bridge-service.ts: `roleOrder`, `isRuntimeRole` and the ordinals of clients.
pub mod Ordinals
use robloxstudio_mcp.Shared.{
  ℕ, zero, suc, ◌+◌, ◌*◌, ◌-◌, String, Bool, Option, none, some, List, [], ◌∷◌, ◌&&◌, ◌||◌,
  if◌then◌else◌, str_eq, leb, ◌==◌, is_some, concat, show, any,
}
use Prim.Native.Char.{code}

-- A prefix taken off, or `none`.
unfoldable pub strip_prefix : String → String → Option String
strip_prefix String.[] s = some s
strip_prefix (String.◌∷◌ p ps) String.[] = none
strip_prefix (String.◌∷◌ p ps) (String.◌∷◌ c s) =
    if code p == code c then strip_prefix ps s else none

-- `\d+` up to the end of the text, after some digits with this value.
unfoldable pub digits : ℕ → String → Option ℕ
digits acc String.[] = some acc
digits acc (String.◌∷◌ c s) =
    if leb b'0' (code c) && leb (code c) b'9' then digits (acc * 10 + (code c - b'0')) s else none

abbrev some_digits : String → Option ℕ
some_digits String.[] = none
some_digits (String.◌∷◌ c s) = digits 0 (String.◌∷◌ c s)

-- `/^client-(\d+)$/.exec(role)`, with the number.
unfoldable pub client_ordinal : String → Option ℕ
client_ordinal role = elim (strip_prefix "client-" role) [
  | none ↦ none
  | some rest ↦ some_digits rest
]

-- `client-${ordinal}`.
abbrev pub client_role : ℕ → String
client_role n = concat ("client-" ∷ show n ∷ [])

unfoldable pub role_order : String → ℕ
role_order role =
    if str_eq role "edit"
    then 0
    else if str_eq role "server"
    then 1
    else elim (client_ordinal role) [ none ↦ 9007199254740991 | some n ↦ 2 + n ]

unfoldable pub is_runtime_role : String → Bool
is_runtime_role role = str_eq role "server" || is_some (client_ordinal role)

abbrev pub is_member : ℕ → List ℕ → Bool
is_member n ns = any (λ m. m == n) ns

-- `while (used.has(ordinal)) ordinal += 1`: it ends before the fuel, one more than the used ones.
unfoldable pub least_free : ℕ → ℕ → List ℕ → ℕ
least_free zero n used = n
least_free (suc fuel) n used =
    let next = least_free fuel (n + 1) used in if is_member n used then next else n
