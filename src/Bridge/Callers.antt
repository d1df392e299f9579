-- ===== src/Bridge/Callers.antt =====
-- What callers see of an admission: `sendRequest`, `submitRequest` and `joinOperation` of
-- bridge-service.ts.
use robloxstudio_mcp.Shared.{
  ℕ, String, Bool, true, false, Option, none, some, get, has, if◌then◌else◌, str_eq,
}
use robloxstudio_mcp.Json.{Value, Platform, undefined}
use robloxstudio_mcp.Bridge.Types.{Bridge, RequestFailure, failure}
use robloxstudio_mcp.Bridge.Prune.{prune_operations}
use robloxstudio_mcp.Bridge.Settlement.{Report, get_request_status}
use robloxstudio_mcp.Bridge.Refusals.{operation_collision, unserializable}
use robloxstudio_mcp.Bridge.Admission.{
  Call, Admission, rejected, waiting, retained, admit_request, operation_fingerprint,
}
use robloxstudio_mcp.Bridge.Replay.{Reply, open_on, refused, raised, replay_retained}

abbrev reply_of : String → Admission → Reply
reply_of target (rejected f) = refused (failure f)
reply_of target (waiting id) = open_on id
reply_of target (retained id none) = raised
reply_of target (retained id (some r)) = replay_retained r target

unfoldable pub send_request : Platform → ℕ → Call → Bridge → Reply × Bridge
send_request p now c s = let (a, t) = admit_request p now c s in (reply_of c.target_peer_id a, t)

-- `submitRequest`: a failure, or the status at admission.
pub data Submission : Type 0 where
  declined : RequestFailure → Submission
  submitted : Option Report → Submission

abbrev pub submission : Platform → ℕ → Admission → Bridge → Submission × Bridge
submission p now (rejected f) t = (declined f, t)
submission p now (retained id status) t = (submitted status, t)
submission p now (waiting id) t =
    let (status, u) = get_request_status p now id t in (submitted status, u)

unfoldable pub submit_request : Platform → ℕ → Call → Bridge → Submission × Bridge
submit_request p now c s = let (a, t) = admit_request p now c s in submission p now a t

-- `joinOperation`: the exception of a bad identity, no such operation, or the operation with the
-- reply that its `response` gives.
pub data Joined : Type 0 where
  unserialized : RequestFailure → Joined
  no_operation : Joined
  collided : RequestFailure → Joined
  joined : Option Report → Reply → Joined

abbrev pub join_reply : String → String → Bool → Option Report → Reply
join_reply target_peer_id id true status = open_on id
join_reply target_peer_id id false none = raised
join_reply target_peer_id id false (some r) = replay_retained r target_peer_id

abbrev pub join_status : String → String → Option Report × Bridge → Joined × Bridge
join_status target_peer_id id (status, u) =
    (joined status (join_reply target_peer_id id (has id u.pending_requests) status), u)

unfoldable pub join_operation :
    Platform → ℕ → String → String → String → Value → Bridge → Joined × Bridge
join_operation p now endpoint target_peer_id id identity s =
    elim (operation_fingerprint p target_peer_id endpoint undefined identity) [
      | none ↦ (unserialized (unserializable id target_peer_id), s)
      | some fingerprint ↦
          let t = prune_operations now s in
          elim (get id t.operations) [
            | none ↦ (no_operation, t)
            | some existing ↦
                if str_eq existing.fingerprint fingerprint
                then join_status target_peer_id id (get_request_status p now id t)
                else (collided (operation_collision id existing), t)
          ]
    ]
