-- ===== src/Tests.antt =====
-- Examples: the theorems at concrete inputs.
pub mod Images
pub mod Plugin
pub mod Jobs
pub mod Tickets
pub mod Assets
pub mod Chunks
pub mod Scripts
use robloxstudio_mcp.Shared.{
  ℕ, ◌+◌, ◌≡◌, ◌≤◌, ◌<◌, refl, String, Bool, true, false, Option, none, some, List, [], ◌∷◌, ◌++◌,
  get, has, size, put, total, length, arith, max, map, or_else,
}
use robloxstudio_mcp.Json.{Platform, Value, undefined, null, number, string}
use robloxstudio_mcp.Bridge.Types.{
  Bridge, empty, max_operation_records, max_retained_results, max_retained_result_bytes,
}
use robloxstudio_mcp.Bridge.Waiters.{Ending, timed_out, end_request_waiter}
use robloxstudio_mcp.Bridge.Settlement.{record_response}
use robloxstudio_mcp.Bridge.Admission.{
  Call, new_operation, admit_request, admit_sized, admit_new, enqueue, announce_request,
  operation_fingerprint, request_size, get_peer_by_id,
}
use robloxstudio_mcp.Bridge.Callers.{send_request}
use robloxstudio_mcp.Bridge.Roles.{
  is_runtime_role, client_ordinal, strip_prefix, is_member, least_free,
}
use robloxstudio_mcp.Bridge.Peers.{
  truthy, get_peers, group_id_for_instance, registration_scope_peers, group_attachment_conflict,
  connected_instance_id_collision,
}
use robloxstudio_mcp.Bridge.Delivery.{QueuedRequest}
use robloxstudio_mcp.Bridge.Roles.Ordinals.{least_free_lem}
use robloxstudio_mcp.Bridge.Routing.{
  resolve_target, resolve_within_scope, get_peers_in_scope, get_instance_ids_in_scope,
  resolve_connected_instance_id, single,
}
use robloxstudio_mcp.Bridge.Routing.Targets.{IsRouted, resolve_target-IsRouted}
use robloxstudio_mcp.Bridge.Routing.Scopes.{IsReached}
use robloxstudio_mcp.Bridge.Registration.{
  RegisterInput, chosen_group, assigned_role, new_peer, commit_peer, register_as, register_peer,
}
use robloxstudio_mcp.Bridge.Prune.{prune_operations, expire, trim, enforce_capacity, first_idle}
use robloxstudio_mcp.Bridge.Events.{Event, run, step, send, registers, claims, resolves}
use robloxstudio_mcp.Bridge.Invariant.{Inv, result_bytes_of}
use robloxstudio_mcp.Bridge.Invariant.Histories.{run-Inv}
use robloxstudio_mcp.Bridge.Prune.Capacity.{prune_limits}
use robloxstudio_mcp.Bridge.Answers.{account, end_request_waiter-account, record_response-account}
use robloxstudio_mcp.Bridge.Admission.Retries.{admit_known}

abbrev flat_platform : Platform
flat_platform = record {
  stringify = λ v. some "json";
  parse = λ text. null;
  byte_length = λ text. 4;
  sha256 = λ text. text;
}

abbrev plugin : RegisterInput
plugin = record {
  peer_id = "p";
  transport_peer_id = "p";
  instance_id = "i";
  multiplayer_group_id = none;
  role = "edit";
  place_id = some 7;
  place_name = some "Place";
  place_key = none;
  data_model_name = none;
  is_running = none;
  plugin_version = none;
  plugin_variant = none;
  server_version = none;
}

abbrev call : Call
call = record {
  endpoint = "/api/ping";
  data_sent = null;
  target_peer_id = "p";
  timeout_ms = 1000;
  aborted_before = false;
  aborted_after = false;
  operation_id = some "op";
  uuid = "u";
  identity = undefined;
}

abbrev waiting_history : List (ℕ × Event)
waiting_history = (1, registers plugin) ∷ (2, send call) ∷ []

abbrev waiting_bridge : Bridge
waiting_bridge = run flat_platform waiting_history empty

abbrev waiting_bridge-Inv : Inv waiting_bridge
waiting_bridge-Inv = run-Inv flat_platform waiting_history

run-Inv_example :
    Inv
      (run flat_platform ((1, registers plugin) ∷ (2, send call) ∷ (3, claims "p" "o") ∷ []) empty)
run-Inv_example =
    run-Inv flat_platform ((1, registers plugin) ∷ (2, send call) ∷ (3, claims "p" "o") ∷ [])

queue_example :
    (size waiting_bridge.pending_requests ≡ 1) × (waiting_bridge.pending_request_bytes ≡ 4)
unfolding run step send_request admit_request admit_sized admit_new enqueue announce_request
    operation_fingerprint request_size get_peer_by_id prune_operations expire trim enforce_capacity
    register_peer chosen_group registration_scope_peers group_id_for_instance get_peers
    assigned_role connected_instance_id_collision register_as commit_peer truthy new_peer
    group_attachment_conflict is_runtime_role first_idle client_ordinal strip_prefix get put
queue_example = (refl, refl)

record_response-account_example :
    account "op" (record_response flat_platform 5 "op" null none none waiting_bridge).1
    ≡ account "op" waiting_bridge
record_response-account_example =
    record_response-account flat_platform 5 "op" "op" null none none waiting_bridge
      waiting_bridge-Inv

end_request_waiter-account_example :
    account "op" (end_request_waiter 1002 Ending.timed_out "Request timeout" "op" waiting_bridge)
    ≡ account "op" waiting_bridge
end_request_waiter-account_example =
    end_request_waiter-account 1002 Ending.timed_out "Request timeout" "op" "op" waiting_bridge
      waiting_bridge-Inv

prune_limits_example :
    (size (prune_operations 9 waiting_bridge).operations ≤ max_operation_records)
    × (length (prune_operations 9 waiting_bridge).retained_results ≤ max_retained_results)
    × (total result_bytes_of (prune_operations 9 waiting_bridge).operations
        ≤ max_retained_result_bytes)
prune_limits_example = prune_limits 9 waiting_bridge waiting_bridge-Inv

known_operation :
    get "op" (prune_operations 3 waiting_bridge).operations ≡ some (new_operation 2 "op" "p" "json")
unfolding run step send_request admit_request admit_sized admit_new enqueue announce_request
    operation_fingerprint request_size get_peer_by_id prune_operations expire trim enforce_capacity
    register_peer chosen_group registration_scope_peers group_id_for_instance get_peers
    assigned_role connected_instance_id_collision register_as commit_peer truthy new_peer
    group_attachment_conflict is_runtime_role first_idle client_ordinal strip_prefix get put
known_operation = refl

admit_known_example :
    (admit_request flat_platform 3 call waiting_bridge).1.pending_requests
    ≡ waiting_bridge.pending_requests
admit_known_example =
    admit_known flat_platform 3 call (new_operation 2 "op" "p" "json") waiting_bridge
      waiting_bridge-Inv known_operation

abbrev claimed_call : QueuedRequest
claimed_call = record {
  request_id = "op";
  peer_id = "p";
  target = "edit";
  endpoint = "/api/ping";
  data_sent = null;
  remaining_ms = 998;
}

resolve_target_edit :
    resolve_target (some "i") (some "edit") waiting_bridge
    ≡ single (record { target_peer_id = "p"; target_instance_id = "i"; target_role = "edit" })
unfolding run step send_request admit_request admit_sized admit_new enqueue announce_request
    operation_fingerprint request_size get_peer_by_id prune_operations expire trim enforce_capacity
    register_peer chosen_group registration_scope_peers group_id_for_instance get_peers
    assigned_role connected_instance_id_collision register_as commit_peer truthy new_peer
    group_attachment_conflict is_runtime_role first_idle client_ordinal strip_prefix get put
    resolve_target resolve_within_scope get_peers_in_scope get_instance_ids_in_scope
    resolve_connected_instance_id
resolve_target_edit = refl

resolve_target-IsRouted_example :
    IsRouted
      (IsReached (some "i") waiting_bridge)
      (get_peers waiting_bridge)
      (some "edit")
      (resolve_target (some "i") (some "edit") waiting_bridge)
resolve_target-IsRouted_example = resolve_target-IsRouted (some "i") (some "edit") waiting_bridge

least_free_lem_example :
    (is_member (least_free 3 1 (2 ∷ 1 ∷ [])) (2 ∷ 1 ∷ []) ≡ false)
    × ((m : ℕ) → 1 ≤ m → m < least_free 3 1 (2 ∷ 1 ∷ []) → is_member m (2 ∷ 1 ∷ []) ≡ true)
least_free_lem_example = least_free_lem 3 1 (2 ∷ 1 ∷ []) (ground arith)
