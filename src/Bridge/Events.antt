-- ===== src/Bridge/Events.antt =====
-- Everything that can happen to `BridgeService`, one constructor for each public method, timer and
-- abort listener, and the runs that they make.
use robloxstudio_mcp.Shared.{ℕ, String, Bool, Option, List, [], ◌∷◌}
use robloxstudio_mcp.Json.{Platform, Value}
use robloxstudio_mcp.Bridge.Types.{Bridge, Thrown, ExecutionOutcome}
use robloxstudio_mcp.Bridge.Waiters.{
  fire_timeout, fire_abort, cleanup_old_requests, clear_all_pending_requests,
}
use robloxstudio_mcp.Bridge.Settlement.{
  resolve_request, reject_request, get_request_status, can_still_settle,
}
use robloxstudio_mcp.Bridge.Admission.{Call}
use robloxstudio_mcp.Bridge.Callers.{send_request, submit_request, join_operation}
use robloxstudio_mcp.Bridge.Delivery.{
  set_delivery_active, claim_next_request, claim_next_cancellation, release_delivery_claims,
}
use robloxstudio_mcp.Bridge.Progress.{Phase, observe_transport_progress, settle_transport_response}
use robloxstudio_mcp.Bridge.Peers.{Metadata, update_peer_activity, update_peer_metadata}
use robloxstudio_mcp.Bridge.Groups.{
  create_multiplayer_group, after_attachment, remove_multiplayer_group,
}
use robloxstudio_mcp.Bridge.Registration.{RegisterInput, register_peer}
use robloxstudio_mcp.Bridge.Departure.{
  unregister_peer, unregister_instance_id, cleanup_stale_peers, after_removal,
}

pub data Event : Type 0 where
  send submit : Call → Event
  join : (endpoint target id : String) → Value → Event
  times_out aborts : (id : String) → Event
  resolves : (id : String) → Value → Event
  rejects : (id : String) → Thrown → Event
  responds : (transport id : String) → Value → Option Thrown → Option ExecutionOutcome → Event
  progresses : (transport id : String) → Phase → Option ExecutionOutcome → Event
  claims claims_cancellation : (transport owner : String) → Event
  releases : (owner : String) → Event
  delivers : (transport owner : String) → Bool → Event
  asks_status asks_settleable : (id : String) → Event
  cleans_requests clears_requests cleans_peers : Event
  registers : RegisterInput → Event
  unregisters unregisters_instance is_active : (id : String) → Event
  describes : (peer_id : String) → Metadata → Event
  creates_group : (group controller : String) → Event
  removes_group : (group : String) → Event

-- One event at a time of the clock.
unfoldable pub step : Platform → ℕ → Event → Bridge → Bridge
step p now (send c) s = (send_request p now c s).1
step p now (submit c) s = (submit_request p now c s).1
step p now (join endpoint target id identity) s =
    (join_operation p now endpoint target id identity s).1
step p now (times_out id) s = fire_timeout now id s
step p now (aborts id) s = fire_abort now id s
step p now (resolves id response) s = (resolve_request p now id response s).1
step p now (rejects id e) s = (reject_request p now id e s).1
step p now (responds transport id response error outcome) s =
    (settle_transport_response p now transport id response error outcome s).1
step p now (progresses transport id phase outcome) s =
    observe_transport_progress now transport id phase outcome s
step p now (claims transport owner) s = (claim_next_request now transport owner s).1
step p now (claims_cancellation transport owner) s =
    (claim_next_cancellation now transport owner s).1
step p now (releases owner) s = release_delivery_claims owner s
step p now (delivers transport owner active) s = set_delivery_active now transport owner active s
step p now (asks_status id) s = (get_request_status p now id s).1
step p now (asks_settleable id) s = (can_still_settle now id s).1
step p now cleans_requests s = cleanup_old_requests now s
step p now clears_requests s = clear_all_pending_requests now s
step p now cleans_peers s = cleanup_stale_peers now s
step p now (registers input) s = (register_peer now input s).1
step p now (unregisters id) s = unregister_peer now id s
step p now (unregisters_instance id) s = (unregister_instance_id now id s).1
step p now (is_active id) s = update_peer_activity now id s
step p now (describes peer_id m) s = update_peer_metadata peer_id m s
step p now (creates_group group controller) s =
    after_attachment s (create_multiplayer_group now group controller s)
step p now (removes_group group) s = after_removal s (remove_multiplayer_group group s)

unfoldable pub run : Platform → List (ℕ × Event) → Bridge → Bridge
run p [] s = s
run p ((now, e) ∷ es) s = run p es (step p now e s)
