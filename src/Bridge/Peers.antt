-- ===== src/Bridge/Peers.antt =====
-- The registry of peers in bridge-service.ts: who is connected, in which scope, and how a peer's
-- record is kept current.
use robloxstudio_mcp.Shared.{
  ℕ, String, Bool, Option, none, some, List, [], ◌∷◌, ◌&&◌, map, if◌then◌else◌, str_eq, ltb,
  is_some, not, concat, any, find, filter, values, first_some, or_else,
}
use robloxstudio_mcp.Bridge.Types.{Bridge, StudioPeer}
use robloxstudio_mcp.Bridge.Admission.{get_peer_by_id}
use robloxstudio_mcp.Bridge.Delivery.{is_text, map_values}
use robloxstudio_mcp.Bridge.Roles.{role_order, is_runtime_role}

-- A text that `if (text)` takes: neither undefined nor empty.
unfoldable pub truthy : Option String → Option String
truthy none = none
truthy (some s) = if str_eq s "" then none else some s

abbrev pub contains : String → List String → Bool
contains s texts = any (λ t. str_eq t s) texts

unfoldable pub get_peers : Bridge → List StudioPeer
get_peers s = values s.peers_by_id

-- `groupIdForInstance`.
unfoldable pub group_id_for_instance : String → Bridge → Option String
group_id_for_instance instance s =
    elim (find (λ g. contains instance g.instance_ids) (values s.groups_by_id)) [
      | none ↦ none
      | some g ↦ some g.id
    ]

-- `connectedRuntimeInstanceId`.
abbrev pub connected_runtime_instance_id : StudioPeer → String
connected_runtime_instance_id peer = concat (peer.instance_id ∷ "-" ∷ peer.role ∷ [])

-- `peerScopeKey`.
abbrev pub peer_scope_key : StudioPeer → String
peer_scope_key peer = elim (truthy peer.multiplayer_group_id) [
  | some group ↦ concat ("group:" ∷ group ∷ [])
  | none ↦ concat ("instance:" ∷ peer.instance_id ∷ [])
]

-- The peers whose roles a registration may not repeat.
abbrev pub in_scope : String → Option String → StudioPeer → Bool
in_scope instance none peer =
    str_eq peer.instance_id instance && not (is_some peer.multiplayer_group_id)
in_scope instance (some group) peer = is_text peer.multiplayer_group_id group

unfoldable pub registration_scope_peers : String → Option String → Bridge → List StudioPeer
registration_scope_peers instance group s = filter (in_scope instance (truthy group)) (get_peers s)

-- A peer of another instance in the group that has a role of this instance's.
unfoldable pub group_attachment_conflict : String → String → Bridge → Option StudioPeer
group_attachment_conflict instance group s =
    let roles = map (λ p. p.role) (filter (λ p. str_eq p.instance_id instance) (get_peers s)) in
    find
      (λ p.
        not (str_eq p.instance_id instance)
        && is_text p.multiplayer_group_id group
        && contains p.role roles)
      (get_peers s)

-- `connectedInstanceIdCollision`.
abbrev pub is_grouped_runtime : StudioPeer → Bool
is_grouped_runtime p = is_some p.multiplayer_group_id && is_runtime_role p.role

unfoldable pub connected_instance_id_collision :
    String → String → String → Option String → Bridge → Option StudioPeer
connected_instance_id_collision peer_id instance role group s =
    let others = filter (λ p. not (str_eq p.peer_id peer_id)) (get_peers s) in
    first_some
      (find (λ p. is_grouped_runtime p && str_eq (connected_runtime_instance_id p) instance) others)
      (if is_some group && is_runtime_role role
        then find (λ p. str_eq p.instance_id (concat (instance ∷ "-" ∷ role ∷ []))) others
        else none)

-- `preferredPeer`: the reduction of a nonempty list.
abbrev pub prefer : StudioPeer → StudioPeer → StudioPeer
prefer preferred candidate =
    if ltb (role_order candidate.role) (role_order preferred.role)
    then candidate
    else if ltb (role_order preferred.role) (role_order candidate.role)
    then preferred
    else if ltb candidate.connected_at preferred.connected_at
    then candidate
    else preferred

unfoldable pub preferred_peer : StudioPeer → List StudioPeer → StudioPeer
preferred_peer preferred [] = preferred
preferred_peer preferred (p ∷ ps) = preferred_peer (prefer preferred p) ps

-- `updatePeerActivity`: a transport's sign of life counts for every peer that it carries.
abbrev touch : ℕ → StudioPeer → StudioPeer
touch now peer = record peer { last_activity = now }

abbrev pub adjust_peers : (StudioPeer → Bool) → (StudioPeer → StudioPeer) → Bridge → Bridge
adjust_peers test f s = record s {
  peers_by_id = map_values (λ p. if test p then f p else p) s.peers_by_id;
}

unfoldable pub update_peer_activity : ℕ → String → Bridge → Bridge
update_peer_activity now peer_id s = elim (get_peer_by_id peer_id s) [
  | none ↦ s
  | some peer ↦
      if str_eq peer.transport_peer_id peer_id
      then adjust_peers (λ p. str_eq p.transport_peer_id peer_id) (touch now) s
      else adjust_peers (λ p. str_eq p.peer_id peer_id) (touch now) s
]

pub record Metadata : Type 0 where
  pub place_id : Option ℕ
  pub place_name : Option String
  pub place_key : Option String
  pub data_model_name : Option String
  pub is_running : Option Bool

-- `updatePeerMetadata`: what is given is written.
unfoldable pub apply_metadata : Metadata → StudioPeer → StudioPeer
apply_metadata m peer = record peer {
  place_id = or_else m.place_id peer.place_id;
  place_name = or_else m.place_name peer.place_name;
  place_key = first_some m.place_key peer.place_key;
  data_model_name = or_else m.data_model_name peer.data_model_name;
  is_running = or_else m.is_running peer.is_running;
}

unfoldable pub update_peer_metadata : String → Metadata → Bridge → Bridge
update_peer_metadata peer_id m s = adjust_peers (λ p. str_eq p.peer_id peer_id) (apply_metadata m) s
