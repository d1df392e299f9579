-- ===== src/Bridge/Delivery/Claims.antt =====
-- What a claim hands to a transport.
use robloxstudio_mcp.Shared.{ℕ, ◌≡◌, ◌≤◌, ◌<◌, String, true, Option, none, some, get}
use robloxstudio_mcp.Bridge.Types.{
  Bridge, PendingRequest, StudioPeer, max_outstanding_requests_per_transport,
}
use robloxstudio_mcp.Bridge.Admission.{get_peer_by_id}
use robloxstudio_mcp.Bridge.Delivery.{
  is_claimable, claimed, claim_next_request, outstanding, QueuedRequest,
}

-- What a successful claim has done.
pub record FairClaim (now : ℕ) (transport owner : String) (s : Bridge) (q : QueuedRequest)
    (r : PendingRequest) (peer : StudioPeer) : Type 0 where
  pub queued : get q.request_id s.pending_requests ≡ some r
  pub unclaimed : r.claim_owner ≡ none
  pub target : get_peer_by_id r.target_peer_id s ≡ some peer
  pub routed : peer.transport_peer_id ≡ transport
  pub room : outstanding transport s.pending_requests < max_outstanding_requests_per_transport
  pub oldest_first :
      (id : String) (other : PendingRequest)
      → get id s.pending_requests ≡ some other
      → is_claimable s transport other ≡ true
      → r.timestamp ≤ other.timestamp
  pub marked :
      get q.request_id (claim_next_request now transport owner s).1.pending_requests
      ≡ some (claimed transport owner r)

abbrev picked_id : String → Option QueuedRequest → String
picked_id id none = id
picked_id id (some q) = q.request_id
