-- ===== src/Bridge/Invariant/Delivering.antt =====
-- Claims, progress and responses of a transport keep the bookkeeping.
use robloxstudio_mcp.Shared.{
  ℕ, ◌≡◌, ◌⊎◌, refl, sym, subst, String, true, Option, none, some, [], ◌∷◌, get, put, Distinct,
  Dict, eq_iff, arith, get-put, put-Distinct, total-put, size-put, Option-cases, Bool-cases, inl,
  inr, leb,
}
use robloxstudio_mcp.Bridge.Types.{
  Bridge, OperationRecord, PendingRequest, StudioPeer, max_outstanding_requests_per_transport,
}
use robloxstudio_mcp.Bridge.Waiters.{move_last}
use robloxstudio_mcp.Bridge.Admission.{get_peer_by_id}
use robloxstudio_mcp.Bridge.Delivery.{
  is_claimable, older, oldest, claimed, claim, claim_next_request, dispatch_operation, outstanding,
  update_operation, claim_next_cancellation, release_delivery_claims,
}
use robloxstudio_mcp.Bridge.Invariant.{Inv, result_bytes_of, request_bytes_of}
use robloxstudio_mcp.Bridge.Invariant.Ending.{
  Inv-frame, get-move_last, move_last-Distinct, total-move_last,
}

older_cases :
    (best : Option PendingRequest) (q r : PendingRequest)
    → some (older best q) ≡ some r
    → (best ≡ some r) ⊎ (q ≡ r)
older_cases best q r e = ground arith

-- `oldest` picks a claimable request of the map, under its own name.
pub oldest-found :
    (s : Bridge) (transport : String) (best : Option PendingRequest) (m : Dict PendingRequest)
    (r : PendingRequest)
    → Distinct m
    → oldest s transport best m ≡ some r
    → (best ≡ some r) ⊎ ((id : String) × (get id m ≡ some r) × (is_claimable s transport r ≡ true))
unfolding oldest get
oldest-found s transport best [] r d e = inl e
oldest-found s transport best ((id, q) ∷ m) r d e = elim (Bool-cases (is_claimable s transport q)) [
  | inr skip ↦ from_tail id q m r d (oldest-found s transport best m r d.1 (rw (skip, oldest) at e))
  | inl take ↦
      elim (oldest-found s transport (some (older best q)) m r d.1 (rw (take, oldest) at e)) [
        | inr later ↦ from_tail id q m r d (inr later)
        | inl kept ↦ elim (older_cases best q r kept) [
          | inl before ↦ inl before
          | inr same ↦ inr (id, ground (arith, eq_iff id id), rw (← same) take)
        ]
      ]
]
  where
    from_tail :
        (id : String) (q : PendingRequest) (m : Dict PendingRequest) (r : PendingRequest)
        → Distinct ((id, q) ∷ m)
        → (best ≡ some r)
          ⊎ ((j : String) × (get j m ≡ some r) × (is_claimable s transport r ≡ true))
        → (best ≡ some r)
          ⊎ ((j : String) × (get j ((id, q) ∷ m) ≡ some r) × (is_claimable s transport r ≡ true))
    from_tail id q m r d (inl e) = inl e
    from_tail id q m r d (inr (j, e, c)) = inr (j, ground (arith, eq_iff id j), c)

pub oldest-get :
    (s : Bridge) (transport : String) (r : PendingRequest)
    → Inv s
    → oldest s transport none s.pending_requests ≡ some r
    → get r.id s.pending_requests ≡ some r
oldest-get s transport r v e =
    elim (oldest-found s transport none s.pending_requests r v.pending_distinct e) [
      | inl nothing ↦ cc
      | inr (id, f, c) ↦ subst (λ k. get k s.pending_requests ≡ some r) (sym (v.named id r f)) f
    ]

-- A change of the operations that touches no state and no result.
module _ (s : Bridge) (v : Inv s) (id : String) (o w : OperationRecord)
    (there : get id s.operations ≡ some o) (same_state : w.status.state ≡ o.status.state)
    (same_bytes : w.result_bytes ≡ o.result_bytes) where
  pub rewrite-Inv : Inv (record s { operations = put id w s.operations })
  rewrite-Inv = record {
    pending_distinct = v.pending_distinct;
    operations_distinct = put-Distinct id w s.operations v.operations_distinct;
    named = v.named;
    linked = λ j. ground (arith, v.linked j, v.linked id, get-put id j w s.operations, eq_iff id j);
    pending_total = v.pending_total;
    retained_total =
        omega (arith, v.retained_total, total-put result_bytes_of id w o s.operations there);
    kept = λ j q g k.
        ground (arith, v.kept j q, v.kept id o, get-put id j w s.operations, eq_iff id j);
    unsettled = λ j q g k.
        ground (arith, v.unsettled j q, v.unsettled id o, get-put id j w s.operations, eq_iff id j);
    requests_bounded = v.requests_bounded;
    bytes_bounded = v.bytes_bounded;
  }

  pub requeue-Inv : Inv (record s { operations = move_last id w s.operations })
  requeue-Inv = record {
    pending_distinct = v.pending_distinct;
    operations_distinct = move_last-Distinct id w s.operations v.operations_distinct;
    named = v.named;
    linked = λ j.
        ground (arith, v.linked j, v.linked id, get-move_last id j w s.operations, eq_iff id j);
    pending_total = v.pending_total;
    retained_total = omega (
      arith,
      v.retained_total,
      total-move_last result_bytes_of id w o s.operations v.operations_distinct there,
    );
    kept = λ j q g k.
        ground (arith, v.kept j q, v.kept id o, get-move_last id j w s.operations, eq_iff id j);
    unsettled = λ j q g k.
        ground (
          arith,
          v.unsettled j q,
          v.unsettled id o,
          get-move_last id j w s.operations,
          eq_iff id j,
        );
    requests_bounded = v.requests_bounded;
    bytes_bounded = v.bytes_bounded;
  }

claimed-Inv :
    (transport owner : String) (r : PendingRequest) (s : Bridge)
    → Inv s
    → get r.id s.pending_requests ≡ some r
    → Inv (record s { pending_requests = put r.id (claimed transport owner r) s.pending_requests })
claimed-Inv transport owner r s v e =
    let q = claimed transport owner r in
    record {
      pending_distinct = put-Distinct r.id q s.pending_requests v.pending_distinct;
      operations_distinct = v.operations_distinct;
      named =
          λ j w g. ground (arith, v.named j w, get-put r.id j q s.pending_requests, eq_iff r.id j);
      linked = λ j. ground (arith, v.linked j, get-put r.id j q s.pending_requests, eq_iff r.id j);
      pending_total =
          omega (arith, v.pending_total, total-put request_bytes_of r.id q r s.pending_requests e);
      retained_total = v.retained_total;
      kept = v.kept;
      unsettled = v.unsettled;
      requests_bounded = omega (arith, v.requests_bounded, size-put r.id q r s.pending_requests e);
      bytes_bounded = v.bytes_bounded;
    }

update-Inv :
    (now : ℕ) (transport id : String) (found : Option OperationRecord) (s : Bridge)
    → Inv s
    → get id s.operations ≡ found
    → Inv (update_operation id (dispatch_operation now transport) s)
unfolding dispatch_operation
update-Inv now transport id none s v e = rw (e, update_operation) v
update-Inv now transport id (some o) s v e =
    rw (e, update_operation) (rewrite-Inv s v id o _ e refl refl)

claim-Inv :
    (now : ℕ) (transport owner : String) (r : PendingRequest) (peer : StudioPeer) (s : Bridge)
    → Inv s
    → get r.id s.pending_requests ≡ some r
    → Inv (claim now transport owner r peer s).1
unfolding claim
claim-Inv now transport owner r peer s v e =
    update-Inv now transport r.id _ _ (claimed-Inv transport owner r s v e) refl

pub claim_next_request-Inv :
    (now : ℕ) (transport owner : String) (s : Bridge)
    → Inv s
    → Inv (claim_next_request now transport owner s).1
unfolding claim_next_request
claim_next_request-Inv now transport owner s v =
    elim (Bool-cases
      (leb max_outstanding_requests_per_transport (outstanding transport s.pending_requests))) [
        | inl full ↦ rw (full, claim_next_request) v
        | inr room ↦ elim (Option-cases (oldest s transport none s.pending_requests)) [
          | inl e ↦ rw (room, claim_next_request, e) v
          | inr (r, e) ↦ elim (Option-cases (get_peer_by_id r.target_peer_id s)) [
            | inl f ↦ rw (room, claim_next_request, e, f) v
            | inr (peer, f) ↦
                rw (room, claim_next_request, e, f)
                  (claim-Inv now transport owner r peer s v (oldest-get s transport r v e))
          ]
        ]
      ]

pub claim_next_cancellation-Inv :
    (now : ℕ) (transport owner : String) (s : Bridge)
    → Inv s
    → Inv (claim_next_cancellation now transport owner s).1
unfolding claim_next_cancellation
claim_next_cancellation-Inv now transport owner s v =
    Inv-frame s _ (ground arith) (ground arith) (ground arith) (ground arith) (ground arith) v

pub release_delivery_claims-Inv :
    (owner : String) (s : Bridge) → Inv s → Inv (release_delivery_claims owner s)
unfolding release_delivery_claims
release_delivery_claims-Inv owner s v = Inv-frame s _ refl refl refl refl refl v
