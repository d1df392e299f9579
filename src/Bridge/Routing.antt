-- ===== src/Bridge/Routing.antt =====
-- How a call finds its peer: `resolveConnectedInstanceId`, `getInstanceIdsInScope`,
-- `getPeersInScope`, `resolveWithinScope` and `resolveTarget` of bridge-service.ts.
pub mod Scopes
pub mod Targets
use robloxstudio_mcp.Shared.{
  String, Option, none, some, List, [], ◌∷◌, ◌&&◌, map, if◌then◌else◌, str_eq, is_some, any, find,
  filter, values, first_some,
}
use robloxstudio_mcp.Bridge.Types.{Bridge, StudioPeer, MultiplayerGroup}
use robloxstudio_mcp.Bridge.Peers.{
  truthy, contains, get_peers, group_id_for_instance, is_grouped_runtime,
  connected_runtime_instance_id, peer_scope_key,
}

-- An instance with this identifier has a peer (`getInstances().find(...)`).
abbrev pub instance_named : String → Bridge → Option String
instance_named instance s =
    if any (λ p. str_eq p.instance_id instance) (get_peers s) then some instance else none

abbrev pub instance_of : Option StudioPeer → Option String
instance_of none = none
instance_of (some p) = some p.instance_id

abbrev pub reconcile : Option String → Option String → Option String
reconcile (some exact) (some grouped) = if str_eq exact grouped then some exact else none
reconcile exact grouped = first_some exact grouped

unfoldable pub resolve_connected_instance_id : String → Bridge → Option String
resolve_connected_instance_id instance s = reconcile (instance_named instance s) (
    instance_of (
      find (λ p. is_grouped_runtime p && str_eq (connected_runtime_instance_id p) instance)
        (get_peers s)))

abbrev pub ids_of : Option MultiplayerGroup → List String
ids_of none = []
ids_of (some g) = g.instance_ids

unfoldable pub get_instance_ids_in_scope : String → Bridge → List String
get_instance_ids_in_scope instance s = elim (resolve_connected_instance_id instance s) [
  | none ↦ []
  | some resolved ↦ elim (truthy (group_id_for_instance resolved s)) [
    | none ↦ resolved ∷ []
    | some group ↦ ids_of (find (λ g. str_eq g.id group) (values s.groups_by_id))
  ]
]

unfoldable pub get_peers_in_scope : String → Bridge → List StudioPeer
get_peers_in_scope instance s =
    let ids = get_instance_ids_in_scope instance s in
    filter (λ p. contains p.instance_id ids) (get_peers s)

pub record ResolvedTarget : Type 0 where
  pub target_peer_id : String
  pub target_instance_id : String
  pub target_role : String

pub data RoutingErrorCode : Type 0 where
  multiple_instances_connected ambiguous_target target_role_required : RoutingErrorCode
  target_role_not_present_on_instance unrecognized_instance_id : RoutingErrorCode

-- The error's texts and the choices that it lists are left out.
pub data Resolution : Type 0 where
  single : ResolvedTarget → Resolution
  fanout : List ResolvedTarget → Resolution
  unresolved : RoutingErrorCode → Resolution

abbrev pub resolved_target : StudioPeer → ResolvedTarget
resolved_target p = record {
  target_peer_id = p.peer_id;
  target_instance_id = p.instance_id;
  target_role = p.role;
}

abbrev pub with_role : String → List StudioPeer → Option StudioPeer
with_role role peers = find (λ p. str_eq p.role role) peers

-- No target was named: the edit peer, or the only one.
unfoldable pub default_target : List StudioPeer → Resolution
default_target peers = elim (with_role "edit" peers) [
  | some p ↦ single (resolved_target p)
  | none ↦ elim peers [
    | [] ↦ unresolved target_role_required
    | p ∷ ps ↦ elim ps [
      | [] ↦ single (resolved_target p)
      | q ∷ qs ↦ unresolved target_role_required
    ]
  ]
]

unfoldable pub resolve_within_scope : List StudioPeer → Option String → Resolution
resolve_within_scope peers target = elim (truthy target) [
  | none ↦ default_target peers
  | some role ↦
      if str_eq role "all"
      then fanout (map resolved_target peers)
      else elim (with_role role peers) [
        | none ↦ unresolved target_role_not_present_on_instance
        | some p ↦ single (resolved_target p)
      ]
]

-- The scope keys of all peers, each once.
unfoldable pub scope_keys : List StudioPeer → List String
scope_keys [] = []
scope_keys (p ∷ ps) =
    let rest = scope_keys ps in
    if contains (peer_scope_key p) rest then rest else peer_scope_key p ∷ rest

unfoldable pub resolve_target : Option String → Option String → Bridge → Resolution
resolve_target (some instance) target s = elim (get_peers_in_scope instance s) [
  | [] ↦ unresolved unrecognized_instance_id
  | p ∷ ps ↦ resolve_within_scope (p ∷ ps) target
]
resolve_target none target s = elim (scope_keys (get_peers s)) [
  | [] ↦ unresolved unrecognized_instance_id
  | key ∷ others ↦ elim others [
    | [] ↦ resolve_within_scope (filter (λ p. str_eq (peer_scope_key p) key) (get_peers s)) target
    | k ∷ ks ↦
        unresolved
          (if is_some (truthy target) then ambiguous_target else multiple_instances_connected)
  ]
]
