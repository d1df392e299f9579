-- ===== src/Bridge/Routing/Scopes.antt =====
-- Which peers an instance id reaches: `resolveConnectedInstanceId`, `getInstanceIdsInScope` and
-- `peerScopeKey` of bridge-service.ts.
use robloxstudio_mcp.Shared.{
  ◌≡◌, refl, String, Bool, true, false, Option, none, some, List, [], ◌∷◌, ◌&&◌, any, find, All,
  values, str_eq, eq_iff, arith, Option-cases, Bool-cases, inl, inr, ◌⊎◌, ap, or_else, subst, sym,
  ◌∙◌,
}
use robloxstudio_mcp.Bridge.Types.{Bridge, StudioPeer}
use robloxstudio_mcp.Bridge.Peers.{
  truthy, contains, get_peers, peer_scope_key, group_id_for_instance, is_grouped_runtime,
  connected_runtime_instance_id,
}
use robloxstudio_mcp.Bridge.Routing.{
  scope_keys, get_instance_ids_in_scope, resolve_connected_instance_id, ids_of, reconcile,
  instance_of,
}
use robloxstudio_mcp.Searches.{Any, find-Any, any-Any, Any-imp}

-- A group lists the one instance, and a group of the same id lists the other.
abbrev pub SharesGroup : Bridge → String → String → Type 0
SharesGroup s i j =
    Any
      (λ g.
        Any (λ k. k ≡ i) g.instance_ids
        × Any (λ h. (h.id ≡ g.id) × Any (λ k. k ≡ j) h.instance_ids) (values s.groups_by_id))
      (values s.groups_by_id)

-- The identifier is that of the peer's instance, or its suffixed one where it is a grouped runtime.
abbrev pub IsNamedBy : String → StudioPeer → Type 0
IsNamedBy instance p =
    (p.instance_id ≡ instance)
    ⊎ ((is_grouped_runtime p ≡ true) × (connected_runtime_instance_id p ≡ instance))

-- A given identifier reaches the peers of the instance that it names and of those that share a
-- group with it; without one, a peer is reached only if all connected peers are of its scope.
abbrev pub IsReached : Option String → Bridge → StudioPeer → Type 0
IsReached (some instance) s q =
    Any
      (λ p.
        IsNamedBy instance p
        × ((q.instance_id ≡ p.instance_id) ⊎ SharesGroup s p.instance_id q.instance_id))
      (get_peers s)
IsReached none s q = All (λ p. peer_scope_key p ≡ peer_scope_key q) (get_peers s)

pub text_eq : (t k : String) → str_eq t k ≡ true → t ≡ k
text_eq t k h = ground (arith, eq_iff t k)

contains-nil : (k : String) (ts : List String) → ts ≡ [] → contains k ts ≡ true → ⊥
contains-nil k [] e h = cc
contains-nil k (t ∷ ts) e h = cc

contains-one : (k t : String) (ts : List String) → ts ≡ t ∷ [] → contains k ts ≡ true → k ≡ t
contains-one k t ts e h =
    let one : contains k (t ∷ []) ≡ true = subst (λ us. contains k us ≡ true) e h in
    ground (arith, eq_iff t k, one)

contains-Any : (k : String) (ts : List String) → contains k ts ≡ true → Any (λ t. t ≡ k) ts
contains-Any k ts h = any-Any (λ t. str_eq t k) _ ts h (λ t e. text_eq t k e)

scope_keys-nil : (ps : List StudioPeer) → scope_keys ps ≡ [] → ps ≡ []
unfolding scope_keys
scope_keys-nil [] e = refl
scope_keys-nil (p ∷ ps) e = elim (Bool-cases (contains (peer_scope_key p) (scope_keys ps))) [
  | inl h ↦ absurd (contains-nil (peer_scope_key p) (scope_keys ps) (sym (rw (h)) ∙ e) h)
  | inr f ↦ cc
]

pub scope_keys-one :
    (ps : List StudioPeer) (key : String)
    → scope_keys ps ≡ key ∷ []
    → All (λ p. peer_scope_key p ≡ key) ps
unfolding scope_keys
scope_keys-one [] key e = tt
scope_keys-one (p ∷ ps) key e = elim (Bool-cases (contains (peer_scope_key p) (scope_keys ps))) [
  | inl h ↦
      let rest : scope_keys ps ≡ key ∷ [] = sym (rw (h)) ∙ e in
      (contains-one (peer_scope_key p) key (scope_keys ps) rest h, scope_keys-one ps key rest)
  | inr f ↦
      let both : peer_scope_key p ∷ scope_keys ps ≡ key ∷ [] = sym (rw (f)) ∙ e in
      (cc, subst (All (λ q. peer_scope_key q ≡ key)) (sym (scope_keys-nil ps cc)) tt)
]

abbrev is_suffixed : String → StudioPeer → Bool
is_suffixed i p = is_grouped_runtime p && str_eq (connected_runtime_instance_id p) i

suffixed-Named :
    (i : String) (p : StudioPeer)
    → is_suffixed i p ≡ true
    → (is_grouped_runtime p ≡ true) × (connected_runtime_instance_id p ≡ i)
suffixed-Named i p h = elim (Bool-cases (is_grouped_runtime p)) [
  | inl g ↦ (g, text_eq (connected_runtime_instance_id p) i (sym (rw (g)) ∙ h))
  | inr n ↦ let no_peer : is_suffixed i p ≡ false = rw (n) in cc
]

exact_kept : (i r : String) (g : Option String) → reconcile (some i) g ≡ some r → some i ≡ some r
exact_kept i r none e = e
exact_kept i r (some j) e = ground arith

-- The instance that an identifier is resolved to is that of a peer which it names.
resolve_connected-Named :
    (i r : String) (s : Bridge)
    → resolve_connected_instance_id i s ≡ some r
    → Any (λ p. IsNamedBy i p × (p.instance_id ≡ r)) (get_peers s)
unfolding resolve_connected_instance_id
resolve_connected-Named i r s e =
    elim (Bool-cases (any (λ p. str_eq p.instance_id i) (get_peers s))) [
      | inl exact ↦
          let named : some i ≡ some r =
            exact_kept i r (instance_of (find (is_suffixed i) (get_peers s)))
              (sym (rw (exact)) ∙ e) in
          any-Any (λ p. str_eq p.instance_id i) _ (get_peers s) exact
            (λ p h. (
              inl (text_eq p.instance_id i h),
              text_eq p.instance_id i h ∙ ap (λ o. or_else o i) named,
            ))
      | inr f0 ↦ elim (Option-cases (find (is_suffixed i) (get_peers s))) [
        | inl f ↦ let nobody : resolve_connected_instance_id i s ≡ none = rw (f0, f) in cc
        | inr (p, f) ↦
            let named : some p.instance_id ≡ some r = sym (rw (f0, f)) ∙ e in
            find-Any (is_suffixed i) _ (get_peers s) p f
              (λ h. (inr (suffixed-Named i p h), ap (λ o. or_else o r) named))
      ]
    ]

truthy-some : (o : Option String) (t : String) → truthy o ≡ some t → o ≡ some t
unfolding truthy
truthy-some none t e = cc
truthy-some (some s) t e = ground arith

group-SharesGroup :
    (i j group : String) (s : Bridge)
    → truthy (group_id_for_instance i s) ≡ some group
    → contains j (ids_of (find (λ g. str_eq g.id group) (values s.groups_by_id))) ≡ true
    → SharesGroup s i j
unfolding group_id_for_instance truthy
group-SharesGroup i j group s e l =
    elim (Option-cases (find (λ g. contains i g.instance_ids) (values s.groups_by_id))) [
      | inl f ↦
          let absent : group_id_for_instance i s ≡ none = rw (f, group_id_for_instance) in
          let given = truthy-some (group_id_for_instance i s) group e in cc
      | inr (g, f) ↦ elim (Option-cases (find (λ g. str_eq g.id group) (values s.groups_by_id))) [
        | inl f2 ↦ absurd (
            contains-nil j (ids_of (find (λ g. str_eq g.id group) (values s.groups_by_id)))
              (rw (f2)) l)
        | inr (h, f2) ↦
            let present : group_id_for_instance i s ≡ some g.id = rw (f, group_id_for_instance) in
            let same : group ≡ g.id =
              ap (λ o. or_else o group)
                (sym (truthy-some (group_id_for_instance i s) group e) ∙ present) in
            let lj : contains j h.instance_ids ≡ true = sym (rw (f2)) ∙ l in
            find-Any (λ g. contains i g.instance_ids) _ (values s.groups_by_id) g f
              (λ li. (
                contains-Any i g.instance_ids li,
                find-Any (λ g. str_eq g.id group) _ (values s.groups_by_id) h f2
                    (λ k. (text_eq h.id group k ∙ same, contains-Any j h.instance_ids lj)),
              ))
      ]
    ]

ids_in_scope-Reached :
    (i j : String) (s : Bridge)
    → contains j (get_instance_ids_in_scope i s) ≡ true
    → (r : String) × (resolve_connected_instance_id i s ≡ some r) × ((j ≡ r) ⊎ SharesGroup s r j)
unfolding get_instance_ids_in_scope group_id_for_instance
ids_in_scope-Reached i j s e = elim (Option-cases (resolve_connected_instance_id i s)) [
  | inl u ↦
      absurd (contains-nil j (get_instance_ids_in_scope i s) (rw (u, get_instance_ids_in_scope)) e)
  | inr (r, u) ↦ (
    r,
    u,
    elim (Option-cases (truthy (group_id_for_instance r s))) [
      | inl n ↦ inl (
          contains-one j r (get_instance_ids_in_scope i s) (rw (u, n, get_instance_ids_in_scope)) e)
      | inr (group, n) ↦ inr (
          group-SharesGroup r j group s n
            (subst (λ ids. contains j ids ≡ true) (rw (u, n, get_instance_ids_in_scope)) e))
    ],
  )
]

pub in_scope-IsReached :
    (i : String) (s : Bridge) (q : StudioPeer)
    → contains q.instance_id (get_instance_ids_in_scope i s) ≡ true
    → IsReached (some i) s q
in_scope-IsReached i s q e =
    let (r, u, near) = ids_in_scope-Reached i q.instance_id s e in
    Any-imp
      (λ p (named, same).
        (named, subst (λ k. (q.instance_id ≡ k) ⊎ SharesGroup s k q.instance_id) (sym same) near))
      (get_peers s) (resolve_connected-Named i r s u)
