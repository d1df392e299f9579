-- ===== src/Bridge/Invariant/Histories.antt =====
-- The bookkeeping over every history of the service.
use robloxstudio_mcp.Shared.{
  ℕ, ◌≡◌, refl, String, Bool, true, false, none, some, List, [], ◌∷◌, get, total, put, remove,
  arith, str_eq, Option-cases, Bool-cases, inl, inr,
}
use robloxstudio_mcp.Json.{Platform, Value, undefined}
use robloxstudio_mcp.Bridge.Types.{Bridge, OperationRecord, empty}
use robloxstudio_mcp.Bridge.Prune.{prune_operations}
use robloxstudio_mcp.Bridge.Waiters.{fire_timeout, fire_abort}
use robloxstudio_mcp.Bridge.Settlement.{resolve_request, reject_request, can_still_settle}
use robloxstudio_mcp.Bridge.Admission.{
  Call, Admission, rejected, waiting, retained, admit_request, operation_fingerprint,
}
use robloxstudio_mcp.Bridge.Callers.{send_request, submit_request, join_operation, submission}
use robloxstudio_mcp.Bridge.Delivery.{
  set_delivery_active, map_values, restore_connection, lose_connection, drop_owner,
}
use robloxstudio_mcp.Bridge.Peers.{update_peer_metadata}
use robloxstudio_mcp.Bridge.Events.{
  Event, send, submit, join, times_out, aborts, resolves, rejects, responds, progresses, claims,
  claims_cancellation, releases, delivers, asks_status, asks_settleable, cleans_requests,
  clears_requests, cleans_peers, registers, unregisters, unregisters_instance, is_active, describes,
  creates_group, removes_group, step, run,
}
use robloxstudio_mcp.Bridge.Invariant.{Inv}
use robloxstudio_mcp.Bridge.Invariant.Pruning.{prune-Inv}
use robloxstudio_mcp.Bridge.Invariant.Ending.{
  Inv-frame, end_request_waiter-Inv, cleanup_old_requests-Inv, clear_all-Inv,
}
use robloxstudio_mcp.Bridge.Invariant.Settling.{record_response-Inv}
use robloxstudio_mcp.Bridge.Invariant.Admitting.{admit_request-Inv, get_request_status-Inv}
use robloxstudio_mcp.Bridge.Invariant.Delivering.{
  claim_next_request-Inv, claim_next_cancellation-Inv, release_delivery_claims-Inv,
}
use robloxstudio_mcp.Bridge.Invariant.Reporting.{
  map_values-Inv, observe_transport_progress-Inv, settle_transport_response-Inv,
}
use robloxstudio_mcp.Bridge.Invariant.Leaving.{
  register_peer-Inv, unregister_peer-Inv, unregister_instance_id-Inv, cleanup_stale_peers-Inv,
  remove_multiplayer_group-Inv, create_multiplayer_group-Inv, update_peer_activity-Inv,
}

submission-Inv :
    (p : Platform) (now : ℕ) (a : Admission) (s : Bridge) → Inv s → Inv (submission p now a s).1
submission-Inv p now (rejected f) s v = v
submission-Inv p now (waiting id) s v = get_request_status-Inv p now id s v
submission-Inv p now (retained id status) s v = v

send-Inv : (p : Platform) (now : ℕ) (c : Call) (s : Bridge) → Inv s → Inv (send_request p now c s).1
unfolding send_request
send-Inv p now c s v = admit_request-Inv p now c s v

submit-Inv :
    (p : Platform) (now : ℕ) (c : Call) (s : Bridge) → Inv s → Inv (submit_request p now c s).1
unfolding submit_request
submit-Inv p now c s v =
    submission-Inv p now (admit_request p now c s).0 _ (admit_request-Inv p now c s v)

join-Inv :
    (p : Platform) (now : ℕ) (endpoint target id : String) (identity : Value) (s : Bridge)
    → Inv s
    → Inv (join_operation p now endpoint target id identity s).1
unfolding join_operation
join-Inv p now endpoint target id identity s v =
    let w = prune-Inv now s v in
    elim (Option-cases (operation_fingerprint p target endpoint undefined identity)) [
      | inl e ↦ rw (e, join_operation) v
      | inr (f, e) ↦ elim (Option-cases (get id (prune_operations now s).operations)) [
        | inl g ↦ rw (e, join_operation, g) w
        | inr (o, g) ↦ elim (Bool-cases (str_eq o.fingerprint f)) [
          | inl h ↦ rw (e, join_operation, g, h) (get_request_status-Inv p now id _ w)
          | inr h ↦ rw (e, join_operation, g, h) w
        ]
      ]
    ]

restore-same :
    (now : ℕ) (transport : String) (o : OperationRecord)
    → ((restore_connection now transport o).status.state ≡ o.status.state)
      × ((restore_connection now transport o).result_bytes ≡ o.result_bytes)
restore-same now transport o = (ground arith, ground arith)

lose-same :
    (now : ℕ) (transport : String) (o : OperationRecord)
    → ((lose_connection now transport o).status.state ≡ o.status.state)
      × ((lose_connection now transport o).result_bytes ≡ o.result_bytes)
lose-same now transport o = (ground arith, ground arith)

set_delivery_active-Inv :
    (now : ℕ) (transport owner : String) (active : Bool) (s : Bridge)
    → Inv s
    → Inv (set_delivery_active now transport owner active s)
unfolding set_delivery_active
set_delivery_active-Inv now transport owner true s v =
    Inv-frame (record s { operations = map_values (restore_connection now transport) s.operations })
      _ refl refl refl refl refl
      (map_values-Inv (restore_connection now transport) (λ o. (restore-same now transport o).0)
        (λ o. (restore-same now transport o).1) s v)
set_delivery_active-Inv now transport owner false s v =
    elim (Option-cases (get transport s.delivery_owners)) [
      | inl e ↦ rw (e, set_delivery_active) v
      | inr (owners, e) ↦ rw (e, set_delivery_active) (by_owners (drop_owner owner owners))
    ]
  where
    by_owners :
        (left : List String)
        → Inv (elim left [
          | [] ↦ record s {
            delivery_owners = remove transport s.delivery_owners;
            operations = map_values (lose_connection now transport) s.operations;
          }
          | o ∷ rest ↦ record s { delivery_owners = put transport (o ∷ rest) s.delivery_owners }
        ])
    by_owners [] =
        Inv-frame
          (record s { operations = map_values (lose_connection now transport) s.operations }) _ refl
          refl refl refl refl
          (map_values-Inv (lose_connection now transport) (λ o. (lose-same now transport o).0)
            (λ o. (lose-same now transport o).1) s v)
    by_owners (o ∷ rest) = Inv-frame s _ refl refl refl refl refl v

pub step-Inv : (p : Platform) (now : ℕ) (e : Event) (s : Bridge) → Inv s → Inv (step p now e s)
unfolding step fire_timeout fire_abort resolve_request reject_request can_still_settle
    update_peer_metadata
step-Inv p now (send c) s v = send-Inv p now c s v
step-Inv p now (submit c) s v = submit-Inv p now c s v
step-Inv p now (join endpoint target id identity) s v =
    join-Inv p now endpoint target id identity s v
step-Inv p now (times_out id) s v = end_request_waiter-Inv now _ _ id s v
step-Inv p now (aborts id) s v = end_request_waiter-Inv now _ _ id s v
step-Inv p now (resolves id response) s v = record_response-Inv p now id response none none s v
step-Inv p now (rejects id e) s v = record_response-Inv p now id undefined (some e) none s v
step-Inv p now (responds transport id response error outcome) s v =
    settle_transport_response-Inv p now transport id response error outcome s v
step-Inv p now (progresses transport id phase outcome) s v =
    observe_transport_progress-Inv now transport id phase outcome s v
step-Inv p now (claims transport owner) s v = claim_next_request-Inv now transport owner s v
step-Inv p now (claims_cancellation transport owner) s v =
    claim_next_cancellation-Inv now transport owner s v
step-Inv p now (releases owner) s v = release_delivery_claims-Inv owner s v
step-Inv p now (delivers transport owner active) s v =
    set_delivery_active-Inv now transport owner active s v
step-Inv p now (asks_status id) s v = get_request_status-Inv p now id s v
step-Inv p now (asks_settleable id) s v = prune-Inv now s v
step-Inv p now cleans_requests s v = cleanup_old_requests-Inv now s v
step-Inv p now clears_requests s v = clear_all-Inv now s v
step-Inv p now cleans_peers s v = cleanup_stale_peers-Inv now s v
step-Inv p now (registers input) s v = register_peer-Inv now input s v
step-Inv p now (unregisters id) s v = unregister_peer-Inv now id s v
step-Inv p now (unregisters_instance id) s v = unregister_instance_id-Inv now id s v
step-Inv p now (is_active id) s v = update_peer_activity-Inv now id s v
step-Inv p now (describes peer_id m) s v = Inv-frame s _ refl refl refl refl refl v
step-Inv p now (creates_group group controller) s v =
    create_multiplayer_group-Inv now group controller s v
step-Inv p now (removes_group group) s v = remove_multiplayer_group-Inv group s v

pub empty-Inv : Inv empty
unfolding get total
empty-Inv = record {
  pending_distinct = tt;
  operations_distinct = tt;
  named = λ id r e. cc;
  linked = λ id. refl;
  pending_total = refl;
  retained_total = refl;
  kept = λ id o e k. cc;
  unsettled = λ id o e k. cc;
  requests_bounded = omega arith;
  bytes_bounded = omega arith;
}

run_from-Inv : (p : Platform) (es : List (ℕ × Event)) (s : Bridge) → Inv s → Inv (run p es s)
unfolding run
run_from-Inv p [] s v = v
run_from-Inv p ((now, e) ∷ es) s v = run_from-Inv p es (step p now e s) (step-Inv p now e s v)

-- After any sequence of calls, timers and aborts from the empty service: identifiers are distinct
-- and each request stands under its own; a request waits exactly while its operation is pending;
-- the running byte totals of requests and of retained results are the sums they stand for; only
-- retained and settled operations hold a result; at most 1,024 requests and 64 MiB of them wait.
pub run-Inv : (p : Platform) (es : List (ℕ × Event)) → Inv (run p es empty)
run-Inv p es = run_from-Inv p es empty empty-Inv
