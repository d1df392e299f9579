-- ===== src/Bridge/Departure.antt =====
-- How peers leave in bridge-service.ts: `unregisterPeer` with the peers that it carries,
-- `unregisterInstanceId` and `cleanupStalePeers`.
use robloxstudio_mcp.Shared.{
  ℕ, zero, suc, ◌-◌, String, Bool, true, false, Option, none, some, List, [], ◌∷◌, ◌&&◌, ◌++◌, map,
  if◌then◌else◌, str_eq, not, any, filter, size, Dict, get, remove, ltb, concat,
}
use robloxstudio_mcp.Bridge.Types.{
  Bridge, StudioPeer, PendingRequest, available, peer_closed, stale_peer_ms,
}
use robloxstudio_mcp.Bridge.Waiters.{Ending, emit, end_request_waiter}
use robloxstudio_mcp.Bridge.Roles.{is_runtime_role}
use robloxstudio_mcp.Bridge.Peers.{contains, get_peers}
use robloxstudio_mcp.Bridge.Groups.{
  Removal, no_group, in_use, removed, detach_instance, remove_multiplayer_group, runs_in,
}

abbrev pub announce_delivery : Option String → Bridge → Bridge
announce_delivery none s = s
announce_delivery (some transport) s = emit (available transport) s

-- Every request for the peer loses its waiter, and its transport may claim again.
unfoldable pub end_requests_of : ℕ → String → Dict PendingRequest → Bridge → Bridge
end_requests_of now peer_id [] s = s
end_requests_of now peer_id ((id, r) ∷ rest) s = end_requests_of now peer_id rest (
    if str_eq r.target_peer_id peer_id
    then announce_delivery r.last_delivery_transport_peer_id (
        end_request_waiter now Ending.disconnected
          (concat ("Target Peer \"" ∷ peer_id ∷ "\" disconnected" ∷ [])) id s)
    else s)

-- `removeInstanceFromGroupsWhenDisconnected`.
unfoldable pub detach_when_disconnected : String → Bridge → Bridge
detach_when_disconnected instance s =
    if any (λ p. str_eq p.instance_id instance) (get_peers s)
    then s
    else detach_instance instance none s

-- The peers that a transport carries besides itself.
unfoldable pub dependents : String → StudioPeer → Bridge → List String
dependents peer_id peer s =
    if str_eq peer.transport_peer_id peer_id
    then map (λ p. p.peer_id)
        (filter (λ p. not (str_eq p.peer_id peer_id) && str_eq p.transport_peer_id peer_id)
          (get_peers s))
    else []

-- The registry without one peer, its delivery owners and the waiters of its requests.
unfoldable pub drop_peer : ℕ → String → StudioPeer → Bridge → Bridge
drop_peer now peer_id peer s =
    let t : Bridge = record s {
      peers_by_id = remove peer_id s.peers_by_id;
      effects = peer_closed peer_id peer.transport_peer_id ∷ s.effects;
      delivery_owners =
          if str_eq peer.transport_peer_id peer_id
          then remove peer_id s.delivery_owners
          else s.delivery_owners;
    } in
    end_requests_of now peer_id t.pending_requests t

-- What the recursion shares: the peers seen, those removed and the service.
pub record Sweep : Type 0 where
  pub visited : List String
  pub removed_peers : List StudioPeer
  pub bridge : Bridge

abbrev pub each : (String → Sweep → Sweep) → List String → Sweep → Sweep
each f [] w = w
each f (id ∷ ids) w = each f ids (f id w)

-- `unregisterPeerInternal`. A peer that another carries carries none itself, so the recursion is
-- two calls deep, and the fuel is above the number of peers.
unfoldable pub unregister_internal : ℕ → ℕ → String → Sweep → Sweep
unregister_internal now zero peer_id w = w
unregister_internal now (suc fuel) peer_id w = elim (contains peer_id w.visited) [
  | true ↦ w
  | false ↦ elim (get peer_id w.bridge.peers_by_id) [
    | none ↦ record w { visited = peer_id ∷ w.visited }
    | some peer ↦
        let x : Sweep = record {
          visited = peer_id ∷ w.visited;
          removed_peers = w.removed_peers ++ peer ∷ [];
          bridge = drop_peer now peer_id peer w.bridge;
        } in
        let y = each (unregister_internal now fuel) (dependents peer_id peer w.bridge) x in
        record y { bridge = detach_when_disconnected peer.instance_id y.bridge }
  ]
]

abbrev pub sweep_fuel : Bridge → ℕ
sweep_fuel s = suc (suc (size s.peers_by_id))

unfoldable pub unregister_peer : ℕ → String → Bridge → Bridge
unregister_peer now peer_id s =
    (unregister_internal now (sweep_fuel s) peer_id
      (record { visited = []; removed_peers = []; bridge = s })).bridge

-- The groups that a departing instance ran in, each once.
unfoldable pub departing_groups : List StudioPeer → List String
departing_groups [] = []
departing_groups (p ∷ ps) =
    let rest = departing_groups ps in
    elim p.multiplayer_group_id [
      | none ↦ rest
      | some group ↦
          if is_runtime_role p.role && not (contains group rest) then group ∷ rest else rest
    ]

abbrev pub after_removal : Bridge → Removal → Bridge
after_removal s no_group = s
after_removal s (in_use group) = s
after_removal s (removed g t) = t

unfoldable pub remove_idle_groups : List String → Bridge → Bridge
remove_idle_groups [] s = s
remove_idle_groups (group ∷ groups) s = remove_idle_groups groups (
    if any (runs_in group) (get_peers s)
    then s
    else after_removal s (remove_multiplayer_group group s))

abbrev pub matching_peers : String → Bridge → List StudioPeer
matching_peers instance s = filter (λ p. str_eq p.instance_id instance) (get_peers s)

-- The loop of `unregisterInstanceId` over the instance's peers.
unfoldable pub sweep_instance : ℕ → String → Bridge → Sweep
sweep_instance now instance s =
    each (unregister_internal now (sweep_fuel s)) (map (λ p. p.peer_id) (matching_peers instance s))
      (record { visited = []; removed_peers = []; bridge = s })

unfoldable pub unregister_instance_id : ℕ → String → Bridge → List StudioPeer × Bridge
unregister_instance_id now instance s =
    let w = sweep_instance now instance s in
    (
      w.removed_peers,
      remove_idle_groups (departing_groups (matching_peers instance s))
          (detach_instance instance none w.bridge),
    )

abbrev pub is_delivering : String → Bridge → Bool
is_delivering transport s = elim (get transport s.delivery_owners) [
  | some (o ∷ owners) ↦ true
  | _ ↦ false
]

unfoldable pub drop_stale : ℕ → List StudioPeer → Bridge → Bridge
drop_stale now [] s = s
drop_stale now (p ∷ ps) s = drop_stale now ps (
    if not (is_delivering p.transport_peer_id s) && ltb stale_peer_ms (now - p.last_activity)
    then unregister_peer now p.peer_id s
    else s)

unfoldable pub cleanup_stale_peers : ℕ → Bridge → Bridge
cleanup_stale_peers now s = drop_stale now (get_peers s) s
