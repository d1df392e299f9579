-- ===== src/Bridge/Routing/Targets.antt =====
-- Whom a request is routed to: `resolveTarget` of bridge-service.ts.
use robloxstudio_mcp.Shared.{
  ◌≡◌, refl, String, Bool, true, Option, none, some, List, [], ◌∷◌, map, filter, All, str_eq,
  eq_iff, arith, Option-cases, Bool-cases, inl, inr, ap, or_else, sym, ◌∙◌,
}
use robloxstudio_mcp.Bridge.Types.{Bridge, StudioPeer}
use robloxstudio_mcp.Bridge.Peers.{truthy, contains, get_peers, peer_scope_key}
use robloxstudio_mcp.Bridge.Routing.{
  ResolvedTarget, Resolution, single, fanout, unresolved, resolved_target, with_role,
  default_target, resolve_within_scope, scope_keys, resolve_target, get_peers_in_scope,
  get_instance_ids_in_scope,
}
use robloxstudio_mcp.Searches.{Any, find-Any, filter-Any, Any-imp, All-imp, List-cases}
use robloxstudio_mcp.Bridge.Routing.Scopes.{IsReached, in_scope-IsReached, scope_keys-one, text_eq}

-- The peer of a single target satisfies `R` and has the role that was named, if one was; those of a
-- fan-out satisfy `R`, and the role that was named is "all".
abbrev pub IsRouted : (StudioPeer → Type 0) → List StudioPeer → Option String → Resolution → Type 0
IsRouted R peers target (single t) =
    Any
      (λ q.
        (t ≡ resolved_target q)
        × R q
        × ((role : String) → truthy target ≡ some role → q.role ≡ role))
      peers
IsRouted R peers target (fanout ts) =
    (truthy target ≡ some "all") × All (λ t. Any (λ q. (t ≡ resolved_target q) × R q) peers) ts
IsRouted R peers target (unresolved code) = Unit

abbrev IsChosen : List StudioPeer → Option String → Resolution → Type 0
IsChosen peers target r = IsRouted (λ q. Unit) peers target r

found-IsChosen :
    (role : String) (ps : List StudioPeer) (target : Option String) (p : StudioPeer)
    → with_role role ps ≡ some p
    → ((r : String) → truthy target ≡ some r → r ≡ role)
    → IsChosen ps target (single (resolved_target p))
found-IsChosen role ps target p e named =
    find-Any (λ q. str_eq q.role role) _ ps p e
      (λ h. (refl, tt, λ r k. ground (arith, eq_iff p.role role) ∙ sym (named r k)))

default_target-IsChosen :
    (ps : List StudioPeer) (target : Option String)
    → truthy target ≡ none
    → IsChosen ps target (default_target ps)
unfolding default_target
default_target-IsChosen [] target e = tt
default_target-IsChosen (p ∷ []) target e = elim (Option-cases (with_role "edit" (p ∷ []))) [
  | inr (q, f) ↦ rw (f, default_target) (found-IsChosen "edit" (p ∷ []) target q f (λ r k. cc))
  | inl f ↦ rw (f, default_target) (inl (refl, tt, λ r k. cc))
]
default_target-IsChosen (p ∷ q ∷ qs) target e =
    elim (Option-cases (with_role "edit" (p ∷ q ∷ qs))) [
      | inr (r, f) ↦
          rw (f, default_target) (found-IsChosen "edit" (p ∷ q ∷ qs) target r f (λ n k. cc))
      | inl f ↦ rw (f, default_target) tt
    ]

every-Any :
    (ps qs : List StudioPeer)
    → ((q : StudioPeer) → Any (λ p. p ≡ q) qs → Any (λ p. p ≡ q) ps)
    → All (λ t. Any (λ q. (t ≡ resolved_target q) × Unit) ps) (map resolved_target qs)
every-Any ps [] h = tt
every-Any ps (q ∷ qs) h = (
  Any-imp (λ p e. (ap resolved_target (sym e), tt)) ps (h q (inl refl)),
  every-Any ps qs (λ r a. h r (inr a)),
)

is_all : (role : String) → str_eq role "all" ≡ true → role ≡ "all"
is_all role e = ground (arith, eq_iff role "all")

resolve_within_scope-IsChosen :
    (ps : List StudioPeer) (target : Option String)
    → IsChosen ps target (resolve_within_scope ps target)
unfolding resolve_within_scope
resolve_within_scope-IsChosen ps target = elim (Option-cases (truthy target)) [
  | inl e ↦ rw (e, resolve_within_scope) (default_target-IsChosen ps target e)
  | inr (role, e) ↦ elim (Bool-cases (str_eq role "all")) [
    | inl every ↦
        rw (e, every, resolve_within_scope)
          (e ∙ ap some (is_all role every), every-Any ps ps (λ q a. a))
    | inr one ↦ elim (Option-cases (with_role role ps)) [
      | inl f ↦ rw (e, one, f, resolve_within_scope) tt
      | inr (p, f) ↦
          rw (e, one, f, resolve_within_scope)
            (found-IsChosen role ps target p f (λ r k. ap (λ o. or_else o r) (sym k ∙ e)))
    ]
  ]
]

filter-IsRouted :
    (R : StudioPeer → Type 0) (g : StudioPeer → Bool) (ps : List StudioPeer)
    (target : Option String) (r : Resolution)
    → ((q : StudioPeer) → g q ≡ true → R q)
    → IsChosen (filter g ps) target r
    → IsRouted R ps target r
filter-IsRouted R g ps target (single t) h c =
    filter-Any g _ _ ps (λ q e (same, _, role). (same, h q e, role)) c
filter-IsRouted R g ps target (fanout ts) h c = (c.0, each ts c.1)
  where
    each :
        (us : List ResolvedTarget)
        → All (λ t. Any (λ q. (t ≡ resolved_target q) × Unit) (filter g ps)) us
        → All (λ t. Any (λ q. (t ≡ resolved_target q) × R q) ps) us
    each [] k = tt
    each (u ∷ us) k = (filter-Any g _ _ ps (λ q e (same, _). (same, h q e)) k.0, each us k.1)
filter-IsRouted R g ps target (unresolved code) h c = tt

in_scope_of-IsRouted :
    (i : String) (target : Option String) (s : Bridge)
    → IsRouted
        (IsReached (some i) s)
        (get_peers s)
        target
        (resolve_within_scope (get_peers_in_scope i s) target)
unfolding get_peers_in_scope
in_scope_of-IsRouted i target s =
    filter-IsRouted (IsReached (some i) s)
      (λ p. contains p.instance_id (get_instance_ids_in_scope i s)) (get_peers s) target
      (resolve_within_scope (get_peers_in_scope i s) target) (λ q e. in_scope-IsReached i s q e)
      (resolve_within_scope-IsChosen (get_peers_in_scope i s) target)

one_scope-IsRouted :
    (key : String) (target : Option String) (s : Bridge)
    → scope_keys (get_peers s) ≡ key ∷ []
    → IsRouted
        (IsReached none s)
        (get_peers s)
        target
        (resolve_within_scope (filter (λ p. str_eq (peer_scope_key p) key) (get_peers s)) target)
one_scope-IsRouted key target s e =
    filter-IsRouted (IsReached none s) (λ p. str_eq (peer_scope_key p) key) (get_peers s) target _
      (λ q h.
        All-imp (λ p k. k ∙ sym (text_eq (peer_scope_key q) key h)) (get_peers s)
          (scope_keys-one (get_peers s) key e))
      (resolve_within_scope-IsChosen _ target)

-- Whatever instance and target are asked for, a request goes only to connected peers, to one peer
-- or, only where the target is all, to several, and a single peer has the role that was named, if
-- one was. With an instance id, each of them is of an instance that the id names, as its own or as
-- the suffixed one of a grouped runtime peer, or shares a multiplayer group with such an instance,
-- groups of one id taken as one. Without one, each has the same scope key as every connected peer,
-- so that nothing is routed where two scopes are connected.
pub resolve_target-IsRouted :
    (instance target : Option String) (s : Bridge)
    → IsRouted (IsReached instance s) (get_peers s) target (resolve_target instance target s)
unfolding resolve_target
resolve_target-IsRouted (some instance) target s =
    elim (List-cases (get_peers_in_scope instance s)) [
      | inl e ↦ rw (e, resolve_target) tt
      | inr (p, ps, e) ↦ rw (e, resolve_target) (rw (← e) (in_scope_of-IsRouted instance target s))
    ]
resolve_target-IsRouted none target s = elim (List-cases (scope_keys (get_peers s))) [
  | inl e ↦ rw (e, resolve_target) tt
  | inr (key, others, e) ↦ elim (List-cases others) [
    | inl f ↦
        rw (e, f, resolve_target) (one_scope-IsRouted key target s (e ∙ ap (λ ks. key ∷ ks) f))
    | inr (k, ks, f) ↦ rw (e, f, resolve_target) tt
  ]
]
