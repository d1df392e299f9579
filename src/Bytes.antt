-- ===== src/Bytes.antt =====
-- Byte sequences: Luau's strings and Node's buffers.
use robloxstudio_mcp.Shared.{
  ℕ, zero, suc, ◌+◌, ◌-◌, ◌*◌, ◌/◌, ◌%◌, if◌then◌else◌, ◌≤◌, ◌≡◌, refl, true, false, List, [], ◌∷◌,
  ◌++◌, ◌&&◌, ◌==◌, Bool, length, arith, ap, sym, ◌∙◌, ==_iff,
}

abbrev pub Bytes : Type 0
Bytes = List ℕ

unfoldable pub take : ℕ → Bytes → Bytes
take n [] = []
take zero (b ∷ s) = []
take (suc n) (b ∷ s) = b ∷ take n s

unfoldable pub drop : ℕ → Bytes → Bytes
drop n [] = []
drop zero (b ∷ s) = b ∷ s
drop (suc n) (b ∷ s) = drop n s

unfoldable pub same : Bytes → Bytes → Bool
same [] [] = true
same (a ∷ s) (b ∷ t) = (a == b) && same s t
same _ _ = false

-- `a ^ b` and `bit32.bxor(a, b)` on the lowest bits, as many as the first argument.
unfoldable pub bit_xor : ℕ → ℕ → ℕ → ℕ
bit_xor zero a b = 0
bit_xor (suc bits) a b = (if a % 2 == b % 2 then 0 else 1) + 2 * bit_xor bits (a / 2) (b / 2)

pub take-drop : (n : ℕ) (s : Bytes) → take n s ++ drop n s ≡ s
unfolding take drop
take-drop n [] = refl
take-drop zero (b ∷ s) = refl
take-drop (suc n) (b ∷ s) = ap (λ t. b ∷ t) (take-drop n s)

pub drop_zero : (s : Bytes) → drop 0 s ≡ s
unfolding drop
drop_zero [] = refl
drop_zero (b ∷ s) = refl

pub length-drop : (n : ℕ) (s : Bytes) → length (drop n s) ≡ length s - n
unfolding drop
length-drop n [] = ground arith
length-drop zero (b ∷ s) = omega arith
length-drop (suc n) (b ∷ s) = ground (arith, length-drop n s)

pub drop_add : (m n : ℕ) (s : Bytes) → drop m (drop n s) ≡ drop (n + m) s
unfolding drop
drop_add m n [] = refl
drop_add m zero (b ∷ s) = ground arith
drop_add m (suc n) (b ∷ s) = ground (arith, drop_add m n s)

pub take_all : (n : ℕ) (s : Bytes) → length s ≤ n → take n s ≡ s
unfolding take
take_all n [] h = refl
take_all zero (b ∷ s) h = absurd (omega arith)
take_all (suc n) (b ∷ s) h = ap (λ t. b ∷ t) (take_all n s (omega arith))

pub same-≡ : (s t : Bytes) → same s t ≡ true → s ≡ t
unfolding same
same-≡ [] [] h = refl
same-≡ [] (b ∷ t) h = cc
same-≡ (a ∷ s) [] h = cc
same-≡ (a ∷ s) (b ∷ t) h = ground (arith, ==_iff a b, same-≡ s t)

pub same_refl : (s : Bytes) → same s s ≡ true
unfolding same
same_refl [] = refl
same_refl (a ∷ s) = ground (arith, same_refl s)

pub take-append : (n : ℕ) (s t : Bytes) → length s ≡ n → take n (s ++ t) ≡ s
unfolding take
take-append zero [] [] h = refl
take-append zero [] (b ∷ t) h = refl
take-append zero (a ∷ s) t h = absurd (omega arith)
take-append (suc n) [] t h = absurd (omega arith)
take-append (suc n) (a ∷ s) t h = ap (λ u. a ∷ u) (take-append n s t (omega arith))

pub drop-append : (n : ℕ) (s t : Bytes) → length s ≡ n → drop n (s ++ t) ≡ t
unfolding drop
drop-append zero [] [] h = refl
drop-append zero [] (b ∷ t) h = refl
drop-append zero (a ∷ s) t h = absurd (omega arith)
drop-append (suc n) [] t h = absurd (omega arith)
drop-append (suc n) (a ∷ s) t h = drop-append n s t (omega arith)

pub length-take : (n : ℕ) (s : Bytes) → n ≤ length s → length (take n s) ≡ n
unfolding take
length-take zero [] h = refl
length-take zero (b ∷ s) h = refl
length-take (suc n) [] h = absurd (omega arith)
length-take (suc n) (b ∷ s) h = ap suc (length-take n s (omega arith))

pub take_zero : (s : Bytes) → take 0 s ≡ []
unfolding take
take_zero [] = refl
take_zero (b ∷ s) = refl

add_suc : (m n : ℕ) → suc m + n ≡ suc (m + n)
add_suc m n = omega arith

pub take_add : (m n : ℕ) (s : Bytes) → take m s ++ take n (drop m s) ≡ take (m + n) s
unfolding take drop
take_add m n [] = refl
take_add zero n (b ∷ s) = ap (λ k. take k (b ∷ s)) (omega arith)
take_add (suc m) n (b ∷ s) =
    ap (λ t. b ∷ t) (take_add m n s) ∙ sym (ap (λ k. take k (b ∷ s)) (add_suc m n))
