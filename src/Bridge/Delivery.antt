-- ===== src/Bridge/Delivery.antt =====
-- How work reaches a plugin and comes back: claims, cancellations, progress and responses of one
-- transport, in bridge-service.ts.
pub mod Claims
use robloxstudio_mcp.Shared.{
  ℕ, ◌+◌, ◌-◌, String, Bool, true, false, Option, none, some, List, [], ◌∷◌, ◌&&◌, Dict, get, put,
  remove, filter, any, ltb, leb, if◌then◌else◌, str_eq, or_else, is_some, max, not,
}
use robloxstudio_mcp.Json.{Value}
use robloxstudio_mcp.Bridge.Types.{
  Bridge, OperationRecord, PendingRequest, PendingCancellation, CancellationReason, StudioPeer,
  Effect, dispatched, available, max_outstanding_requests_per_transport,
}
use robloxstudio_mcp.Bridge.Prune.{prune_cancellations}
use robloxstudio_mcp.Bridge.Settlement.{is_settled}
use robloxstudio_mcp.Bridge.Admission.{get_peer_by_id}

-- A comparison with a value that may be undefined.
abbrev pub is_text : Option String → String → Bool
is_text none t = false
is_text (some s) t = str_eq s t

-- `setDeliveryActive`: a transport's owners, and what its operations record of the connection.
abbrev pub on_transport : String → OperationRecord → Bool
on_transport transport operation =
    is_text operation.transport_peer_id transport && not (is_settled operation.status.state)

abbrev pub restore_connection : ℕ → String → OperationRecord → OperationRecord
restore_connection now transport o =
    if on_transport transport o
      && is_some o.status.seen.connection_lost_at
      && not (is_some o.status.seen.connection_restored_at)
    then record o {
      status = record (o.status) {
        seen = record (o.status.seen) { connection_restored_at = some now };
      };
    }
    else o

abbrev pub lose_connection : ℕ → String → OperationRecord → OperationRecord
lose_connection now transport o =
    if on_transport transport o
    then record o {
      status = record (o.status) {
        seen = record (o.status.seen) {
          connection_lost_at = some now;
          connection_restored_at = none;
        };
      };
    }
    else o

abbrev pub map_values {ℓ} : {V : Type ℓ} → (V → V) → Dict V → Dict V
map_values f [] = []
map_values f ((k, v) ∷ m) = (k, f v) ∷ map_values f m

abbrev pub add_owner : String → List String → List String
add_owner owner owners = if any (λ o. str_eq o owner) owners then owners else owner ∷ owners

abbrev pub drop_owner : String → List String → List String
drop_owner owner owners = filter (λ o. not (str_eq o owner)) owners

unfoldable pub set_delivery_active : ℕ → String → String → Bool → Bridge → Bridge
set_delivery_active now transport owner true s = record s {
  delivery_owners =
      put transport (add_owner owner (or_else (get transport s.delivery_owners) []))
        s.delivery_owners;
  operations = map_values (restore_connection now transport) s.operations;
}
set_delivery_active now transport owner false s = elim (get transport s.delivery_owners) [
  | none ↦ s
  | some owners ↦ elim (drop_owner owner owners) [
    | [] ↦ record s {
      delivery_owners = remove transport s.delivery_owners;
      operations = map_values (lose_connection now transport) s.operations;
    }
    | o ∷ rest ↦ record s { delivery_owners = put transport (o ∷ rest) s.delivery_owners }
  ]
]

-- The requests that a transport has received and not answered.
unfoldable pub outstanding : String → Dict PendingRequest → ℕ
outstanding transport [] = 0
outstanding transport ((id, r) ∷ m) =
    let rest = outstanding transport m in
    if is_text r.last_delivery_transport_peer_id transport then rest + 1 else rest

-- Not claimed yet, for a peer that this transport carries.
unfoldable pub is_claimable : Bridge → String → PendingRequest → Bool
is_claimable s transport r =
    not (is_some r.claim_owner) && elim (get_peer_by_id r.target_peer_id s) [
      | none ↦ false
      | some peer ↦ str_eq peer.transport_peer_id transport
    ]

abbrev pub older : Option PendingRequest → PendingRequest → PendingRequest
older none r = r
older (some best) r = if ltb r.timestamp best.timestamp then r else best

unfoldable pub oldest :
    Bridge → String → Option PendingRequest → Dict PendingRequest → Option PendingRequest
oldest s transport best [] = best
oldest s transport best ((id, r) ∷ m) =
    oldest s transport (if is_claimable s transport r then some (older best r) else best) m

pub record QueuedRequest : Type 0 where
  pub request_id : String
  pub peer_id : String
  pub target : String
  pub endpoint : String
  pub data_sent : Value
  pub remaining_ms : ℕ

abbrev pub claimed : String → String → PendingRequest → PendingRequest
claimed transport owner r = record r {
  claim_owner = some owner;
  last_delivery_transport_peer_id = some transport;
}

unfoldable pub dispatch_operation : ℕ → String → OperationRecord → OperationRecord
dispatch_operation now transport o = record o {
  transport_peer_id = some transport;
  status = record (o.status) { stage = dispatched; dispatched_at = some now };
  updated_at = now;
}

abbrev pub update_operation : String → (OperationRecord → OperationRecord) → Bridge → Bridge
update_operation id f s = elim (get id s.operations) [
  | none ↦ s
  | some o ↦ record s { operations = put id (f o) s.operations }
]

unfoldable pub claim :
    ℕ → String → String → PendingRequest → StudioPeer → Bridge → Option QueuedRequest × Bridge
claim now transport owner r peer s = (
  some (record {
    request_id = r.id;
    peer_id = r.target_peer_id;
    target = peer.role;
    endpoint = r.endpoint;
    data_sent = r.data_sent;
    remaining_ms = max 1 (r.timeout_ms - (now - r.timestamp));
  }),
  update_operation r.id (dispatch_operation now transport)
      (record s { pending_requests = put r.id (claimed transport owner r) s.pending_requests }),
)

unfoldable pub claim_next_request : ℕ → String → String → Bridge → Option QueuedRequest × Bridge
claim_next_request now transport owner s =
    if leb max_outstanding_requests_per_transport (outstanding transport s.pending_requests)
    then (none, s)
    else elim (oldest s transport none s.pending_requests) [
      | none ↦ (none, s)
      | some r ↦ elim (get_peer_by_id r.target_peer_id s) [
        | none ↦ (none, s)
        | some peer ↦ claim now transport owner r peer s
      ]
    ]

-- The first cancellation for a transport that nobody has claimed.
unfoldable pub next_cancellation :
    String → Dict PendingCancellation → Option (String × PendingCancellation)
next_cancellation transport [] = none
next_cancellation transport ((id, c) ∷ m) =
    if str_eq c.transport_peer_id transport && not (is_some c.claim_owner)
    then some (id, c)
    else next_cancellation transport m

unfoldable pub claim_next_cancellation :
    ℕ → String → String → Bridge → Option (String × CancellationReason) × Bridge
claim_next_cancellation now transport owner s =
    let kept = prune_cancellations now s.pending_cancellations in
    elim (next_cancellation transport kept) [
      | none ↦ (none, record s { pending_cancellations = kept })
      | some (id, c) ↦ (
        some (c.request_id, c.reason),
        record s { pending_cancellations = put id (record c { claim_owner = some owner }) kept },
      )
    ]

abbrev release_claim : String → PendingCancellation → PendingCancellation
release_claim owner c = if is_text c.claim_owner owner then record c { claim_owner = none } else c

-- The transports of an owner's cancellations, each once.
unfoldable pub claimed_transports : String → Dict PendingCancellation → List String → List String
claimed_transports owner [] seen = seen
claimed_transports owner ((id, c) ∷ m) seen = claimed_transports owner m (
    if is_text c.claim_owner owner && not (any (λ t. str_eq t c.transport_peer_id) seen)
    then c.transport_peer_id ∷ seen
    else seen)

abbrev announce_all : List String → List Effect → List Effect
announce_all [] effects = effects
announce_all (t ∷ ts) effects = available t ∷ announce_all ts effects

-- `releaseDeliveryClaims`: requests keep their claims.
unfoldable pub release_delivery_claims : String → Bridge → Bridge
release_delivery_claims owner s = record s {
  pending_cancellations = map_values (release_claim owner) s.pending_cancellations;
  effects = announce_all (claimed_transports owner s.pending_cancellations []) s.effects;
}
