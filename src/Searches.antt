-- ===== src/Searches.antt =====
-- What `find`, `some` and `filter` on arrays give: the facts on their members that the code
-- relies on.
use robloxstudio_mcp.Shared.{
  ◌≡◌, refl, Bool, true, some, List, [], ◌∷◌, any, find, filter, All, Bool-cases, inl, inr, ◌⊎◌, ap,
  or_else, subst, sym, ◌∙◌,
}

-- Some member of the list satisfies `P`.
abbrev pub Any {ℓ} : {A : Type ℓ} → (A → Type 0) → List A → Type 0
Any P [] = ⊥
Any P (x ∷ xs) = P x ⊎ Any P xs

pub find-Any {ℓ} :
    {A : Type ℓ} (f : A → Bool) (P : A → Type 0) (xs : List A) (x : A)
    → find f xs ≡ some x
    → (f x ≡ true → P x)
    → Any P xs
find-Any f P [] x e h = cc
find-Any f P (y ∷ ys) x e h = elim (Bool-cases (f y)) [
  | inl here ↦
      let k : some y ≡ some x = sym (rw (here)) ∙ e in
      let same : y ≡ x = ap (λ o. or_else o y) k in
      inl (subst P (sym same) (h (subst (λ z. f z ≡ true) same here)))
  | inr other ↦ inr (find-Any f P ys x (sym (rw (other)) ∙ e) h)
]

pub Any-imp {ℓ} :
    {A : Type ℓ} {P Q : A → Type 0} → ((x : A) → P x → Q x) → (xs : List A) → Any P xs → Any Q xs
Any-imp h [] a = a
Any-imp h (x ∷ xs) (inl p) = inl (h x p)
Any-imp h (x ∷ xs) (inr a) = inr (Any-imp h xs a)

pub any-Any {ℓ} :
    {A : Type ℓ} (f : A → Bool) (P : A → Type 0) (xs : List A)
    → any f xs ≡ true
    → ((x : A) → f x ≡ true → P x)
    → Any P xs
any-Any f P [] e h = cc
any-Any f P (x ∷ xs) e h = elim (Bool-cases (f x)) [
  | inl here ↦ inl (h x here)
  | inr other ↦ inr (any-Any f P xs (sym (rw (other)) ∙ e) h)
]

pub filter-Any {ℓ} :
    {A : Type ℓ} (g : A → Bool) (P Q : A → Type 0) (xs : List A)
    → ((x : A) → g x ≡ true → P x → Q x)
    → Any P (filter g xs)
    → Any Q xs
filter-Any g P Q [] h a = a
filter-Any g P Q (x ∷ xs) h a = elim (Bool-cases (g x)) [
  | inl t ↦
      let kept : filter g (x ∷ xs) ≡ x ∷ filter g xs = rw (t) in
      let b : Any P (x ∷ filter g xs) = subst (Any P) kept a in
      elim b [ inl here ↦ inl (h x t here) | inr there ↦ inr (filter-Any g P Q xs h there) ]
  | inr f ↦
      let dropped : filter g (x ∷ xs) ≡ filter g xs = rw (f) in
      inr (filter-Any g P Q xs h (subst (Any P) dropped a))
]

pub List-cases {ℓ} :
    {A : Type ℓ} (xs : List A) → (xs ≡ []) ⊎ ((x : A) × (ys : List A) × (xs ≡ x ∷ ys))
List-cases [] = inl refl
List-cases (x ∷ xs) = inr (x, xs, refl)

pub All-imp {ℓ} :
    {A : Type ℓ} {P Q : A → Type 0} → ((x : A) → P x → Q x) → (xs : List A) → All P xs → All Q xs
All-imp h [] a = tt
All-imp h (x ∷ xs) a = (h x a.0, All-imp h xs a.1)
