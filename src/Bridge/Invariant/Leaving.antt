-- ===== src/Bridge/Invariant/Leaving.antt =====
-- Registration, groups and departures keep the bookkeeping.
use robloxstudio_mcp.Shared.{
  ℕ, zero, suc, refl, String, Option, none, some, List, [], ◌∷◌, ◌++◌, Dict, get, map, arith,
  str_eq, Option-cases, Bool-cases, inl, inr, any, ltb, ◌-◌, ◌&&◌, not,
}
use robloxstudio_mcp.Bridge.Types.{Bridge, StudioPeer, PendingRequest, stale_peer_ms}
use robloxstudio_mcp.Bridge.Groups.{
  attach, detach_instance, attach_instance_to_group, create_multiplayer_group, after_attachment,
  remove_multiplayer_group, runs_in,
}
use robloxstudio_mcp.Bridge.Peers.{get_peers, contains, update_peer_activity}
use robloxstudio_mcp.Bridge.Registration.{RegisterInput, register_peer, register_as, commit_peer}
use robloxstudio_mcp.Bridge.Departure.{
  end_requests_of, detach_when_disconnected, dependents, drop_peer, Sweep, each,
  unregister_internal, unregister_peer, remove_idle_groups, unregister_instance_id, drop_stale,
  cleanup_stale_peers, announce_delivery, after_removal, is_delivering, departing_groups,
  sweep_fuel, sweep_instance, matching_peers,
}
use robloxstudio_mcp.Bridge.Invariant.{Inv}
use robloxstudio_mcp.Bridge.Invariant.Ending.{Inv-frame, Inv-emit, end_request_waiter-Inv}

pub register_peer-Inv :
    (now : ℕ) (input : RegisterInput) (s : Bridge) → Inv s → Inv (register_peer now input s).1
unfolding register_peer register_as commit_peer attach_instance_to_group attach detach_instance
register_peer-Inv now input s v =
    Inv-frame s _ (ground arith) (ground arith) (ground arith) (ground arith) (ground arith) v

announce_delivery-Inv :
    (transport : Option String) (s : Bridge) → Inv s → Inv (announce_delivery transport s)
announce_delivery-Inv none s v = v
announce_delivery-Inv (some t) s v = Inv-emit _ s v

end_requests_of-Inv :
    (now : ℕ) (peer_id : String) (rest : Dict PendingRequest) (s : Bridge)
    → Inv s
    → Inv (end_requests_of now peer_id rest s)
unfolding end_requests_of
end_requests_of-Inv now peer_id [] s v = v
end_requests_of-Inv now peer_id ((id, r) ∷ rest) s v =
    elim (Bool-cases (str_eq r.target_peer_id peer_id)) [
      | inl e ↦ rw e (
          end_requests_of-Inv now peer_id rest _ (
            announce_delivery-Inv r.last_delivery_transport_peer_id _
              (end_request_waiter-Inv now _ _ id s v)))
      | inr e ↦ rw e (end_requests_of-Inv now peer_id rest s v)
    ]

drop_peer-Inv :
    (now : ℕ) (peer_id : String) (peer : StudioPeer) (s : Bridge)
    → Inv s
    → Inv (drop_peer now peer_id peer s)
unfolding drop_peer
drop_peer-Inv now peer_id peer s v =
    end_requests_of-Inv now peer_id _ _ (Inv-frame s _ refl refl refl refl refl v)

detach_when_disconnected-Inv :
    (instance : String) (s : Bridge) → Inv s → Inv (detach_when_disconnected instance s)
unfolding detach_when_disconnected detach_instance
detach_when_disconnected-Inv instance s v =
    Inv-frame s _ (ground arith) (ground arith) (ground arith) (ground arith) (ground arith) v

each-Inv :
    (f : String → Sweep → Sweep)
    → ((id : String) (w : Sweep) → Inv w.bridge → Inv (f id w).bridge)
    → (ids : List String) (w : Sweep) → Inv w.bridge
    → Inv (each f ids w).bridge
each-Inv f keep [] w v = v
each-Inv f keep (id ∷ ids) w v = each-Inv f keep ids (f id w) (keep id w v)

unregister_internal-Inv :
    (now fuel : ℕ) (peer_id : String) (w : Sweep)
    → Inv w.bridge
    → Inv (unregister_internal now fuel peer_id w).bridge
unfolding unregister_internal
unregister_internal-Inv now zero peer_id w v = v
unregister_internal-Inv now (suc fuel) peer_id w v =
    elim (Bool-cases (contains peer_id w.visited)) [
      | inl e ↦ rw (e, unregister_internal) v
      | inr e ↦ elim (Option-cases (get peer_id w.bridge.peers_by_id)) [
        | inl f ↦ rw (e, unregister_internal, f) v
        | inr (peer, f) ↦
            rw (e, unregister_internal, f)
              (detach_when_disconnected-Inv peer.instance_id _ (
                each-Inv (unregister_internal now fuel) (unregister_internal-Inv now fuel)
                  (dependents peer_id peer w.bridge)
                  (record {
                    visited = peer_id ∷ w.visited;
                    removed_peers = w.removed_peers ++ peer ∷ [];
                    bridge = drop_peer now peer_id peer w.bridge;
                  })
                  (drop_peer-Inv now peer_id peer w.bridge v)))
      ]
    ]

pub unregister_peer-Inv :
    (now : ℕ) (peer_id : String) (s : Bridge) → Inv s → Inv (unregister_peer now peer_id s)
unfolding unregister_peer
unregister_peer-Inv now peer_id s v = unregister_internal-Inv now _ peer_id _ v

pub remove_multiplayer_group-Inv :
    (group : String) (s : Bridge) → Inv s → Inv (after_removal s (remove_multiplayer_group group s))
unfolding remove_multiplayer_group
remove_multiplayer_group-Inv group s v =
    Inv-frame s _ (ground arith) (ground arith) (ground arith) (ground arith) (ground arith) v

remove_idle_groups-Inv :
    (groups : List String) (s : Bridge) → Inv s → Inv (remove_idle_groups groups s)
unfolding remove_idle_groups
remove_idle_groups-Inv [] s v = v
remove_idle_groups-Inv (group ∷ groups) s v =
    elim (Bool-cases (any (runs_in group) (get_peers s))) [
      | inl e ↦ rw e (remove_idle_groups-Inv groups s v)
      | inr e ↦ rw e (remove_idle_groups-Inv groups _ (remove_multiplayer_group-Inv group s v))
    ]

sweep_instance-Inv :
    (now : ℕ) (instance : String) (s : Bridge) → Inv s → Inv (sweep_instance now instance s).bridge
unfolding sweep_instance
sweep_instance-Inv now instance s v =
    each-Inv (unregister_internal now (sweep_fuel s)) (unregister_internal-Inv now (sweep_fuel s))
      (map (λ p. p.peer_id) (matching_peers instance s))
      (record { visited = []; removed_peers = []; bridge = s }) v

pub unregister_instance_id-Inv :
    (now : ℕ) (instance : String) (s : Bridge)
    → Inv s
    → Inv (unregister_instance_id now instance s).1
unfolding unregister_instance_id detach_instance
unregister_instance_id-Inv now instance s v =
    remove_idle_groups-Inv (departing_groups (matching_peers instance s)) _ (
      Inv-frame (sweep_instance now instance s).bridge _ refl refl refl refl refl
        (sweep_instance-Inv now instance s v))

drop_stale-Inv : (now : ℕ) (ps : List StudioPeer) (s : Bridge) → Inv s → Inv (drop_stale now ps s)
unfolding drop_stale
drop_stale-Inv now [] s v = v
drop_stale-Inv now (p ∷ ps) s v =
    elim (Bool-cases
      (not (is_delivering p.transport_peer_id s) && ltb stale_peer_ms (now - p.last_activity))) [
        | inl e ↦ rw e (drop_stale-Inv now ps _ (unregister_peer-Inv now p.peer_id s v))
        | inr e ↦ rw e (drop_stale-Inv now ps s v)
      ]

pub cleanup_stale_peers-Inv : (now : ℕ) (s : Bridge) → Inv s → Inv (cleanup_stale_peers now s)
unfolding cleanup_stale_peers
cleanup_stale_peers-Inv now s v = drop_stale-Inv now _ s v

pub create_multiplayer_group-Inv :
    (now : ℕ) (group controller : String) (s : Bridge)
    → Inv s
    → Inv (after_attachment s (create_multiplayer_group now group controller s))
unfolding create_multiplayer_group attach_instance_to_group attach detach_instance
create_multiplayer_group-Inv now group controller s v =
    Inv-frame s _ (ground arith) (ground arith) (ground arith) (ground arith) (ground arith) v

pub update_peer_activity-Inv :
    (now : ℕ) (peer_id : String) (s : Bridge) → Inv s → Inv (update_peer_activity now peer_id s)
unfolding update_peer_activity
update_peer_activity-Inv now peer_id s v =
    Inv-frame s _ (ground arith) (ground arith) (ground arith) (ground arith) (ground arith) v
