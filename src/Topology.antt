-- ===== src/Topology.antt =====
-- Identifiers of peers and instances: studio-plugin/src/modules/TopologyId.ts. The random number is
-- a parameter; the first eight digits of a GUID make one below 2 ^ 32.
use robloxstudio_mcp.Bytes.{Bytes, take, drop}
use robloxstudio_mcp.Shared.{
  ℕ, zero, suc, ◌+◌, ◌-◌, ◌*◌, ◌/◌, ◌%◌, ◌<◌, ◌≡◌, Option, none, some, [], ◌∷◌, ◌++◌, ◌==◌, ltb,
  if◌then◌else◌, arith,
}

pub data TopologyIdKind : Type 0 where
  instance_id peer_id : TopologyIdKind

-- `BASE36_DIGITS.sub(digit + 1, digit + 1)`.
unfoldable pub base36_digit : ℕ → ℕ
base36_digit digit = if ltb digit 10 then 48 + digit else 87 + digit

-- The loop of `tokenFromNumber`.
unfoldable pub token_loop : ℕ → ℕ → Bytes → Bytes
token_loop zero remaining token = token
token_loop (suc rounds) remaining token =
    token_loop rounds (remaining / 36) (base36_digit (remaining % 36) ∷ token)

unfoldable pub token_from_number : ℕ → Bytes
token_from_number value =
    let token = token_loop 6 (value % 2176782336) [] in take 3 token ++ (45 ∷ take 3 (drop 3 token))

abbrev pub kind_text : TopologyIdKind → Bytes
kind_text instance_id = 105 ∷ 110 ∷ 115 ∷ 116 ∷ 97 ∷ 110 ∷ 99 ∷ 101 ∷ []
kind_text peer_id = 112 ∷ 101 ∷ 101 ∷ 114 ∷ []

unfoldable pub format_id : TopologyIdKind → ℕ → Bytes
format_id kind value = kind_text kind ++ (58 ∷ token_from_number value)

-- The digit that a character of a token stands for.
abbrev digit_value : ℕ → ℕ
digit_value c = if ltb c 58 then c - 48 else c - 87

abbrev digits_value : ℕ → ℕ → ℕ → ℕ → ℕ → ℕ → ℕ
digits_value a b c d e f = ((((a * 36 + b) * 36 + c) * 36 + d) * 36 + e) * 36 + f

-- The number that a token of the form `abc-def` stands for.
abbrev pub token_value : Bytes → Option ℕ
token_value (a ∷ b ∷ c ∷ dash ∷ d ∷ e ∷ f ∷ []) =
    if dash == 45
    then some (
        digits_value (digit_value a) (digit_value b) (digit_value c) (digit_value d) (digit_value e)
          (digit_value f))
    else none
token_value _ = none

digit_value-base36_digit : (d : ℕ) → d < 36 → digit_value (base36_digit d) ≡ d
unfolding base36_digit
digit_value-base36_digit d h = ground arith

digits_value-quotients :
    (n : ℕ)
    → n < 2176782336
    → digits_value
        (n / 36 / 36 / 36 / 36 / 36 % 36)
        (n / 36 / 36 / 36 / 36 % 36)
        (n / 36 / 36 / 36 % 36)
        (n / 36 / 36 % 36)
        (n / 36 % 36)
        (n % 36)
      ≡ n
digits_value-quotients n h = omega arith

-- The token of a number, two groups of three characters, reads back in base 36 as the number
-- modulo 36 to the sixth.
pub token_value-token_from_number :
    (value : ℕ) → token_value (token_from_number value) ≡ some (value % 2176782336)
unfolding token_from_number token_loop take drop
token_value-token_from_number value =
    let n : ℕ = value % 2176782336 in
    rw (
      digit_value-base36_digit (n / 36 / 36 / 36 / 36 / 36 % 36) (omega arith),
      digit_value-base36_digit (n / 36 / 36 / 36 / 36 % 36) (omega arith),
      digit_value-base36_digit (n / 36 / 36 / 36 % 36) (omega arith),
      digit_value-base36_digit (n / 36 / 36 % 36) (omega arith),
      digit_value-base36_digit (n / 36 % 36) (omega arith),
      digit_value-base36_digit (n % 36) (omega arith),
      digits_value-quotients n (omega arith),
    )
