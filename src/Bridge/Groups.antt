-- ===== src/Bridge/Groups.antt =====
-- Multiplayer groups in bridge-service.ts: attaching an instance, and making and removing a group.
use robloxstudio_mcp.Shared.{
  ℕ, String, Bool, Option, none, some, [], ◌∷◌, ◌&&◌, ◌||◌, ◌++◌, if◌then◌else◌, str_eq, not, any,
  filter, Dict, get, put, remove, or_else,
}
use robloxstudio_mcp.Bridge.Types.{Bridge, StudioPeer, MultiplayerGroup}
use robloxstudio_mcp.Bridge.Delivery.{is_text}
use robloxstudio_mcp.Bridge.Roles.{is_runtime_role}
use robloxstudio_mcp.Bridge.Peers.{contains, get_peers, group_attachment_conflict, adjust_peers}

abbrev without_instance : String → MultiplayerGroup → MultiplayerGroup
without_instance instance g = record g {
  instance_ids = filter (λ i. not (str_eq i instance)) g.instance_ids;
  controller_instance_id =
      if is_text g.controller_instance_id instance then none else g.controller_instance_id;
}

-- A group that has lost its last instance is deleted.
abbrev keep_group : String → MultiplayerGroup → Dict MultiplayerGroup → Dict MultiplayerGroup
keep_group key g rest = elim g.instance_ids [ [] ↦ rest | i ∷ is ↦ (key, g) ∷ rest ]

unfoldable pub detach_groups :
    String → Option String → Dict MultiplayerGroup → Dict MultiplayerGroup
detach_groups instance retained [] = []
detach_groups instance retained ((key, g) ∷ m) =
    let rest = detach_groups instance retained m in
    if is_text retained g.id || not (contains instance g.instance_ids)
    then (key, g) ∷ rest
    else keep_group key (without_instance instance g) rest

-- `detachInstanceFromOtherGroups`.
unfoldable pub detach_instance : String → Option String → Bridge → Bridge
detach_instance instance retained s = record s {
  groups_by_id = detach_groups instance retained s.groups_by_id;
}

abbrev new_group : ℕ → String → MultiplayerGroup
new_group now group = record {
  id = group;
  controller_instance_id = none;
  instance_ids = [];
  created_at = now;
}

abbrev with_instance : String → MultiplayerGroup → MultiplayerGroup
with_instance instance g =
    if contains instance g.instance_ids
    then g
    else record g { instance_ids = g.instance_ids ++ instance ∷ [] }

-- `attachInstanceToGroup` after its test for a conflict.
unfoldable pub attach : ℕ → String → String → Bridge → Bridge
attach now instance group s =
    let t = detach_instance instance (some group) s in
    let g = or_else (get group t.groups_by_id) (new_group now group) in
    adjust_peers (λ p. str_eq p.instance_id instance)
      (λ p. record p { multiplayer_group_id = some group })
      (record t { groups_by_id = put group (with_instance instance g) t.groups_by_id })

-- An attachment, or the peer that the exception names.
pub data Attachment : Type 0 where
  conflict : StudioPeer → Attachment
  attached : Bridge → Attachment

unfoldable pub attach_instance_to_group : ℕ → String → String → Bridge → Attachment
attach_instance_to_group now instance group s = elim (group_attachment_conflict instance group s) [
  | some peer ↦ conflict peer
  | none ↦ attached (attach now instance group s)
]

-- The state after an attachment: as it was, where it throws.
abbrev pub after_attachment : Bridge → Attachment → Bridge
after_attachment s (conflict peer) = s
after_attachment s (attached t) = t

abbrev set_controller : String → String → Bridge → Bridge
set_controller controller group s = elim (get group s.groups_by_id) [
  | none ↦ s
  | some g ↦ record s {
    groups_by_id = put group (record g { controller_instance_id = some controller }) s.groups_by_id;
  }
]

unfoldable pub create_multiplayer_group : ℕ → String → String → Bridge → Attachment
create_multiplayer_group now group controller s =
    elim (attach_instance_to_group now controller group s) [
      | conflict peer ↦ conflict peer
      | attached t ↦ attached (set_controller controller group t)
    ]

-- `removeMultiplayerGroup`: no such group, one that is in use, or its removal.
pub data Removal : Type 0 where
  no_group : Removal
  in_use : String → Removal
  removed : MultiplayerGroup → Bridge → Removal

abbrev pub runs_in : String → StudioPeer → Bool
runs_in group p = is_text p.multiplayer_group_id group && is_runtime_role p.role

unfoldable pub remove_multiplayer_group : String → Bridge → Removal
remove_multiplayer_group group s = elim (get group s.groups_by_id) [
  | none ↦ no_group
  | some g ↦
      if any (runs_in group) (get_peers s)
      then in_use group
      else removed g (
          adjust_peers (λ p. is_text p.multiplayer_group_id group)
            (λ p. record p { multiplayer_group_id = none })
            (record s { groups_by_id = remove group s.groups_by_id }))
]
