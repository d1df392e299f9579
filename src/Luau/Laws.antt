-- ===== src/Luau/Laws.antt =====
-- Laws of byte strings.
use robloxstudio_mcp.Bytes.{Bytes, take, drop}
use robloxstudio_mcp.Shared.{
  ℕ, zero, suc, ◌+◌, ◌-◌, ◌≤◌, ◌<◌, ◌≡◌, refl, true, false, none, some, [], ◌∷◌, length, arith,
  ==_iff, Bool-cases, inl, inr,
}
use robloxstudio_mcp.Luau.{starts_with, find_from}

pub starts_with-take :
    (needle s : Bytes) → starts_with needle s ≡ true → take (length needle) s ≡ needle
unfolding starts_with take
starts_with-take [] [] h = refl
starts_with-take [] (b ∷ s) h = refl
starts_with-take (n ∷ needle) [] h = cc
starts_with-take (n ∷ needle) (b ∷ s) h = ground (arith, ==_iff n b, starts_with-take needle s)

minus_self : (n : ℕ) → n - n ≡ 0
minus_self n = omega arith

-- A needle is found where it starts, and starts nowhere before.
pub find_from-some :
    (needle : Bytes) (at : ℕ) (s : Bytes) (p : ℕ)
    → find_from needle at s ≡ some p
    → (at ≤ p) × (starts_with needle (drop (p - at) s) ≡ true)
unfolding find_from drop
find_from-some needle at [] p h = ground arith
find_from-some needle at (b ∷ s) p h = elim (Bool-cases (starts_with needle (b ∷ s))) [
  | inl here ↦ let e : at ≡ p = ground arith in (omega arith, rw (← e, minus_self at) here)
  | inr later ↦
      let k : find_from needle (at + 1) s ≡ some p = rw (later, find_from) at h in
      let (far, there) = find_from-some needle (at + 1) s p k in
      let e : p - at ≡ suc (p - (at + 1)) = omega arith in (omega arith, rw e there)
]

pub find_from-none :
    (needle : Bytes) (at : ℕ) (s : Bytes) (n : ℕ)
    → find_from needle at s ≡ none
    → n ≤ length s
    → starts_with needle (drop n s) ≡ false
unfolding find_from drop
find_from-none needle at [] n h l = ground arith
find_from-none needle at (b ∷ s) zero h l = ground arith
find_from-none needle at (b ∷ s) (suc n) h l = ground (arith, find_from-none needle (at + 1) s n)

pub find_from-first :
    (needle : Bytes) (at : ℕ) (s : Bytes) (p n : ℕ)
    → find_from needle at s ≡ some p
    → n < p - at
    → starts_with needle (drop n s) ≡ false
unfolding find_from drop
find_from-first needle at [] p n h l = ground arith
find_from-first needle at (b ∷ s) p zero h l = ground arith
find_from-first needle at (b ∷ s) p (suc n) h l =
    ground (arith, find_from-first needle (at + 1) s p n)
