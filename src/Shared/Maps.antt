-- ===== src/Shared/Maps.antt =====
-- JavaScript's `Map` with string keys: entries in insertion order, an update keeps its place.
use robloxstudio_mcp.Shared.Tests.{if◌then◌else◌, is_some}
use robloxstudio_mcp.Shared.Lists.{length}
use Prim.Native.Nat.{ℕ, ◌+◌, ◌≤◌}
use Prim.Native.String.{String}
use mathlib.Core.Path.{◌≡◌, refl}
use mathlib.Core.Bool.{Bool}
use mathlib.Core.List.{List, [], ◌∷◌}
use mathlib.Core.Option.{Option, none, some}
use native.Mathlib.Omega.{arith}
use text.Mathlib.Text.{◌==◌ as str_eq}
use text.Mathlib.TextEquality.{eq_iff}

abbrev pub Dict {ℓ} : Type ℓ → Type ℓ
Dict V = List (String × V)

module _ {ℓ} {V : Type ℓ} where
  -- map.get(key)
  unfoldable pub get : String → Dict V → Option V
  get k [] = none
  get k ((j, v) ∷ m) = if str_eq j k then some v else get k m

  -- map.has(key)
  abbrev pub has : String → Dict V → Bool
  has k m = is_some (get k m)

  -- map.set(key, value)
  unfoldable pub put : String → V → Dict V → Dict V
  put k v [] = (k, v) ∷ []
  put k v ((j, w) ∷ m) = if str_eq j k then (j, v) ∷ m else (j, w) ∷ put k v m

  -- map.delete(key)
  unfoldable pub remove : String → Dict V → Dict V
  remove k [] = []
  remove k ((j, v) ∷ m) = let rest = remove k m in if str_eq j k then rest else (j, v) ∷ rest

  -- map.size
  abbrev pub size : Dict V → ℕ
  size m = length m

  -- A number read from every value, added up.
  unfoldable pub total : (V → ℕ) → Dict V → ℕ
  total f [] = 0
  total f ((k, v) ∷ m) = f v + total f m

  -- No key stands twice.
  abbrev pub Distinct : Dict V → Type ℓ
  Distinct [] = Unit
  Distinct ((k, v) ∷ m) = (get k m ≡ none) × Distinct m

  pub get-put :
      (k j : String) (v : V) (m : Dict V)
      → get j (put k v m) ≡ (if str_eq k j then some v else get j m)
  unfolding get put
  get-put k j v [] = refl
  get-put k j v ((i, w) ∷ m) = ground (arith, eq_iff k j, eq_iff i k, eq_iff i j, get-put k j v m)

  pub get-remove :
      (k j : String) (m : Dict V) → get j (remove k m) ≡ (if str_eq k j then none else get j m)
  unfolding get remove
  get-remove k j [] = ground arith
  get-remove k j ((i, w) ∷ m) = ground (arith, eq_iff k j, eq_iff i k, eq_iff i j, get-remove k j m)

  pub put-Distinct : (k : String) (v : V) (m : Dict V) → Distinct m → Distinct (put k v m)
  unfolding get put
  put-Distinct k v [] h = ground arith
  put-Distinct k v ((j, w) ∷ m) h =
      ground (arith, eq_iff j k, eq_iff k j, put-Distinct k v m h.1, get-put k j v m)

  pub remove-Distinct : (k : String) (m : Dict V) → Distinct m → Distinct (remove k m)
  unfolding remove
  remove-Distinct k [] h = tt
  remove-Distinct k ((j, w) ∷ m) h = ground (arith, remove-Distinct k m h.1, get-remove k j m)

  pub remove_of_none : (k : String) (m : Dict V) → get k m ≡ none → remove k m ≡ m
  unfolding get remove
  remove_of_none k [] h = refl
  remove_of_none k ((j, w) ∷ m) h = ground (arith, remove_of_none k m)

  pub total-put_new :
      (f : V → ℕ) (k : String) (v : V) (m : Dict V)
      → get k m ≡ none
      → total f (put k v m) ≡ total f m + f v
  unfolding get put total
  total-put_new f k v [] h = omega arith
  total-put_new f k v ((j, w) ∷ m) h = ground (arith, total-put_new f k v m)

  pub total-put :
      (f : V → ℕ) (k : String) (v w : V) (m : Dict V)
      → get k m ≡ some w
      → total f (put k v m) + f w ≡ total f m + f v
  unfolding get put total
  total-put f k v w [] h = ground arith
  total-put f k v w ((j, u) ∷ m) h = ground (arith, total-put f k v w m)

  pub total-remove :
      (f : V → ℕ) (k : String) (w : V) (m : Dict V)
      → Distinct m
      → get k m ≡ some w
      → total f (remove k m) + f w ≡ total f m
  unfolding get remove total
  total-remove f k w [] d h = ground arith
  total-remove f k w ((j, u) ∷ m) d h =
      ground (arith, total-remove f k w m d.1, remove_of_none k m, eq_iff j k)

  pub size-put_new :
      (k : String) (v : V) (m : Dict V) → get k m ≡ none → size (put k v m) ≡ size m + 1
  unfolding get put
  size-put_new k v [] h = omega arith
  size-put_new k v ((j, w) ∷ m) h = ground (arith, size-put_new k v m)

  pub size-put : (k : String) (v w : V) (m : Dict V) → get k m ≡ some w → size (put k v m) ≡ size m
  unfolding get put
  size-put k v w [] h = ground arith
  size-put k v w ((j, u) ∷ m) h = ground (arith, size-put k v w m)

  pub size-remove-le : (k : String) (m : Dict V) → size (remove k m) ≤ size m
  unfolding remove
  size-remove-le k [] = omega arith
  size-remove-le k ((j, w) ∷ m) = ground (arith, size-remove-le k m)

  pub size-remove :
      (k : String) (w : V) (m : Dict V)
      → Distinct m
      → get k m ≡ some w
      → size (remove k m) + 1 ≡ size m
  unfolding get remove
  size-remove k w [] d h = ground arith
  size-remove k w ((j, u) ∷ m) d h =
      ground (arith, size-remove k w m d.1, remove_of_none k m, eq_iff j k)

-- Array.from(map.values())
abbrev pub values {ℓ} : {V : Type ℓ} → Dict V → List V
values [] = []
values ((k, v) ∷ m) = v ∷ values m
