-- ===== src/Bridge/Roles/Ordinals.antt =====
-- The ordinal that `registerPeer` gives to a client.
use robloxstudio_mcp.Shared.{
  ℕ, zero, suc, ◌+◌, ◌≡◌, ◌≤◌, ◌<◌, refl, true, false, List, [], ◌∷◌, length, arith, Bool-cases,
  inl, inr, ◌==◌, if◌then◌else◌, ◌≢◌, subst, sym, ◌∙◌,
}
use robloxstudio_mcp.Bridge.Roles.{is_member, least_free}

-- The ordinals without one of them.
abbrev without : ℕ → List ℕ → List ℕ
without n [] = []
without n (m ∷ ms) = let rest = without n ms in if m == n then rest else m ∷ rest

member-without : (n k : ℕ) (ms : List ℕ) → k ≢ n → is_member k (without n ms) ≡ is_member k ms
member-without n k [] h = refl
member-without n k (m ∷ ms) h = ground (arith, member-without n k ms h)

length-without-≤ : (n : ℕ) (ms : List ℕ) → length (without n ms) ≤ length ms
length-without-≤ n [] = omega arith
length-without-≤ n (m ∷ ms) = ground (arith, length-without-≤ n ms)

length-without : (n : ℕ) (ms : List ℕ) → is_member n ms ≡ true → length (without n ms) < length ms
length-without n [] h = cc
length-without n (m ∷ ms) h = ground (arith, length-without n ms, length-without-≤ n ms)

least_free-≤ : (fuel n : ℕ) (ms : List ℕ) → n ≤ least_free fuel n ms
unfolding least_free
least_free-≤ zero n ms = omega arith
least_free-≤ (suc fuel) n ms = ground (arith, least_free-≤ fuel (n + 1) ms)

least_free-without :
    (fuel n k : ℕ) (ms : List ℕ) → k < n → least_free fuel n (without k ms) ≡ least_free fuel n ms
unfolding least_free
least_free-without zero n k ms h = refl
least_free-without (suc fuel) n k ms h =
    ground (arith, member-without k n ms (ground arith), least_free-without fuel (n + 1) k ms)

-- With more fuel than there are ordinals in use, the search for a client's ordinal ends at one
-- that is not in use, and every smaller one from its start is.
pub least_free_lem :
    (fuel n : ℕ) (used : List ℕ)
    → length used < fuel
    → (is_member (least_free fuel n used) used ≡ false)
      × ((m : ℕ) → n ≤ m → m < least_free fuel n used → is_member m used ≡ true)
unfolding least_free
least_free_lem zero n used h = absurd (omega arith)
least_free_lem (suc fuel) n used h = elim (Bool-cases (is_member n used)) [
  | inr free ↦ rw (free, least_free) (free, λ m l k. absurd (omega arith))
  | inl taken ↦
      let (fresh, below) =
        least_free_lem fuel (n + 1) (without n used) (omega (arith, length-without n used taken)) in
      let same = least_free-without fuel (n + 1) n used (omega arith) in
      let above = least_free-≤ fuel (n + 1) used in
      rw (taken, least_free)
        (
          sym (member-without n (least_free fuel (n + 1) used) used (omega arith))
              ∙ subst (λ r. is_member r (without n used) ≡ false) same fresh,
          λ m l k. elim (Bool-cases (m == n)) [
            | inl here ↦ ground arith
            | inr later ↦
                sym (member-without n m used (ground arith))
                ∙ below m (ground arith) (subst (λ r. m < r) (sym same) k)
          ],
        )
]
