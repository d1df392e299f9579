-- ===== src/Replace/Order.antt =====
-- The order in which `planScripts` of studio-plugin/src/modules/ScriptReplace.ts visits instances.
use robloxstudio_mcp.Bytes.{Bytes}
use robloxstudio_mcp.Shared.{
  ℕ, zero, suc, ◌+◌, ◌≤◌, ◌≡◌, refl, List, [], ◌∷◌, ◌++◌, arith, ap, sym, ◌∙◌, append_assoc, Result,
  ok, ◌>>=◌, Result-cases, inl, inr,
}
use robloxstudio_mcp.Replace.{Forest, none_left, tree, ReplaceCorpus, ReplaceRequest}
use robloxstudio_mcp.Replace.Planning.{Gsub, Plan, visit, push, plan_loop, size}

-- Each instance before its descendants, and these before its later siblings.
abbrev pub preorder : {Node : Type 0} → Forest Node → List Node
preorder none_left = []
preorder (tree n below after) = n ∷ (preorder below ++ preorder after)

-- The plan that visiting a list of instances, one after the other, makes.
abbrev pub visit_each :
    {Node W : Type 0}
    → ReplaceCorpus Node W
    → Gsub
    → W
    → ReplaceRequest
    → List Node
    → Plan Node
    → Result Bytes (Plan Node)
visit_each c gsub w request [] plan = ok plan
visit_each c gsub w request (n ∷ ns) plan =
    visit c gsub w request n plan >>= λ next. visit_each c gsub w request ns next

size-push : {Node : Type 0} (f g : Forest Node) → size (push f g) ≡ size f + size g
unfolding size push
size-push none_left g = omega arith
size-push (tree n below after) g = omega (arith, size-push after g)

preorder-push : {Node : Type 0} (f g : Forest Node) → preorder (push f g) ≡ preorder f ++ preorder g
unfolding push
preorder-push none_left g = refl
preorder-push (tree n below after) g =
    ap (λ t. n ∷ (preorder below ++ t)) (preorder-push after g)
    ∙ ap (λ t. n ∷ t) (sym (append_assoc (preorder below) (preorder after) (preorder g)))

-- With at least as much fuel as there are instances on its stack, the traversal visits each of
-- them and of their descendants once, an instance before its descendants and these before its
-- later siblings.
pub plan_loop-preorder :
    {Node W : Type 0} (fuel : ℕ) (c : ReplaceCorpus Node W) (gsub : Gsub) (w : W)
    (request : ReplaceRequest) (stack : Forest Node) (plan : Plan Node)
    → size stack ≤ fuel
    → plan_loop fuel c gsub w request stack plan ≡ visit_each c gsub w request (preorder stack) plan
unfolding plan_loop size
plan_loop-preorder zero c gsub w request none_left plan h = refl
plan_loop-preorder zero c gsub w request (tree n below stack) plan h = absurd (omega arith)
plan_loop-preorder (suc fuel) c gsub w request none_left plan h = refl
plan_loop-preorder (suc fuel) c gsub w request (tree n below stack) plan h =
    elim (Result-cases (visit c gsub w request n plan)) [
      | inr (e, r) ↦ rw (r)
      | inl (next, r) ↦ rw (r) (
          plan_loop-preorder fuel c gsub w request (push below stack) next
            (omega (arith, size-push below stack))
          ∙ ap (λ ns. visit_each c gsub w request ns next) (preorder-push below stack))
    ]
