-- ===== src/Bridge/Registration.antt =====
-- `registerPeer` of bridge-service.ts.
use robloxstudio_mcp.Shared.{
  ℕ, suc, String, Bool, false, Option, none, some, List, [], ◌∷◌, ◌||◌, if◌then◌else◌, str_eq, not,
  find, filter, length, get, put, first_some, or_else,
}
use robloxstudio_mcp.Bridge.Types.{Bridge, StudioPeer, available, peer_registered}
use robloxstudio_mcp.Bridge.Waiters.{emit}
use robloxstudio_mcp.Bridge.Roles.{client_ordinal, client_role, is_member, least_free}
use robloxstudio_mcp.Bridge.Peers.{
  truthy, group_id_for_instance, registration_scope_peers, group_attachment_conflict,
  connected_instance_id_collision,
}
use robloxstudio_mcp.Bridge.Groups.{conflict, attached, attach_instance_to_group}

pub record RegisterInput : Type 0 where
  pub peer_id : String
  pub transport_peer_id : String
  pub instance_id : String
  pub multiplayer_group_id : Option String
  pub role : String
  pub place_id : Option ℕ
  pub place_name : Option String
  pub place_key : Option String
  pub data_model_name : Option String
  pub is_running : Option Bool
  pub plugin_version : Option String
  pub plugin_variant : Option String
  pub server_version : Option String

-- The refusals carry the peer that stands in the way; `attach_failed` is the exception of
-- `attachInstanceToGroup`.
pub data RegisterResult : Type 0 where
  registered : (role peer_id instance_id : String) → Option String → RegisterResult
  duplicate_scope_role : StudioPeer → RegisterResult
  peer_identity_mismatch : StudioPeer → RegisterResult
  instance_id_alias_collision : StudioPeer → RegisterResult
  attach_failed : StudioPeer → RegisterResult

-- The peer that this identifier belongs to, if the input disagrees with it.
abbrev mismatch : RegisterInput → Option StudioPeer → Option StudioPeer
mismatch input none = none
mismatch input (some prior) =
    if not (str_eq prior.instance_id input.instance_id)
      || not (str_eq prior.transport_peer_id input.transport_peer_id)
    then some prior
    else none

abbrev group_of : Option StudioPeer → Option String
group_of none = none
group_of (some prior) = prior.multiplayer_group_id

-- `input.multiplayerGroupId ?? groupIdForInstance(...) ?? prior?.multiplayerGroupId`.
unfoldable pub chosen_group : RegisterInput → Option StudioPeer → Bridge → Option String
chosen_group input prior s =
    first_some input.multiplayer_group_id
      (first_some (group_id_for_instance input.instance_id s) (group_of prior))

unfoldable pub used_ordinals : List StudioPeer → List ℕ
used_ordinals [] = []
used_ordinals (p ∷ ps) =
    let rest = used_ordinals ps in elim (client_ordinal p.role) [ none ↦ rest | some n ↦ n ∷ rest ]

abbrev fresh_role : List ℕ → String
fresh_role used = client_role (least_free (suc (length used)) 1 used)

-- The role of a client: the one it had, if that is free, or the least free ordinal.
unfoldable pub client_slot : Option StudioPeer → List ℕ → String
client_slot none used = fresh_role used
client_slot (some prior) used = elim (client_ordinal prior.role) [
  | none ↦ fresh_role used
  | some n ↦ if is_member n used then fresh_role used else prior.role
]

unfoldable pub assigned_role : RegisterInput → Option StudioPeer → List StudioPeer → String
assigned_role input prior scope =
    if str_eq input.role "client" then client_slot prior (used_ordinals scope) else input.role

abbrev connected_since : ℕ → Option StudioPeer → ℕ
connected_since now none = now
connected_since now (some prior) = prior.connected_at

unfoldable pub new_peer :
    ℕ → RegisterInput → Option StudioPeer → Option String → String → StudioPeer
new_peer now input prior group role = record {
  peer_id = input.peer_id;
  transport_peer_id = input.transport_peer_id;
  instance_id = input.instance_id;
  multiplayer_group_id = group;
  role = role;
  place_id = or_else input.place_id 0;
  place_name = or_else input.place_name "";
  place_key = input.place_key;
  data_model_name = or_else input.data_model_name "";
  is_running = or_else input.is_running false;
  plugin_version = or_else input.plugin_version "";
  plugin_variant = or_else input.plugin_variant "unknown";
  server_version = or_else input.server_version "";
  last_activity = now;
  connected_at = connected_since now prior;
}

abbrev announce_peer : StudioPeer → Bridge → RegisterResult × Bridge
announce_peer peer s = (
  registered peer.role peer.peer_id peer.instance_id peer.multiplayer_group_id,
  emit (available peer.transport_peer_id) (emit (peer_registered peer) s),
)

-- The record is in the map before the instance is attached to its group.
unfoldable pub commit_peer : ℕ → StudioPeer → Bridge → RegisterResult × Bridge
commit_peer now peer s =
    let t : Bridge = record s { peers_by_id = put peer.peer_id peer s.peers_by_id } in
    elim (truthy peer.multiplayer_group_id) [
      | none ↦ announce_peer peer t
      | some group ↦ elim (attach_instance_to_group now peer.instance_id group t) [
        | conflict other ↦ (attach_failed other, t)
        | attached u ↦ announce_peer peer u
      ]
    ]

-- The checks on the role that was assigned.
unfoldable pub register_as :
    ℕ
    → RegisterInput
    → Option StudioPeer
    → Option String
    → List StudioPeer
    → String
    → Bridge
    → RegisterResult × Bridge
register_as now input prior group scope role s =
    elim (connected_instance_id_collision input.peer_id input.instance_id role group s) [
      | some other ↦ (instance_id_alias_collision other, s)
      | none ↦ elim (find (λ p. str_eq p.role role) scope) [
        | some other ↦ (duplicate_scope_role other, s)
        | none ↦ commit_peer now (new_peer now input prior group role) s
      ]
    ]

abbrev scope_of : RegisterInput → Option String → Bridge → List StudioPeer
scope_of input group s =
    filter (λ p. not (str_eq p.peer_id input.peer_id))
      (registration_scope_peers input.instance_id group s)

abbrev attachment_conflict_of : RegisterInput → Option String → Bridge → Option StudioPeer
attachment_conflict_of input group s = elim (truthy group) [
  | none ↦ none
  | some g ↦ group_attachment_conflict input.instance_id g s
]

unfoldable pub register_peer : ℕ → RegisterInput → Bridge → RegisterResult × Bridge
register_peer now input s =
    let prior = get input.peer_id s.peers_by_id in
    let group = chosen_group input prior s in
    let scope = scope_of input group s in
    elim (mismatch input prior) [
      | some p ↦ (peer_identity_mismatch p, s)
      | none ↦ elim (attachment_conflict_of input group s) [
        | some other ↦ (duplicate_scope_role other, s)
        | none ↦ register_as now input prior group scope (assigned_role input prior scope) s
      ]
    ]
