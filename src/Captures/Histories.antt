-- ===== src/Captures/Histories.antt =====
-- Histories of capture transfers: the start and the end of captures, reads, releases and expiry
-- in any order, in CaptureTransfer.ts.
use Prim.Native.Nat.{◌*◌}
use robloxstudio_mcp.Shared.{
  ℕ, ◌≡◌, ◌≤◌, String, some, List, [], ◌∷◌, get, size, total, arith, Option-cases, Bool-cases, inl,
  inr, leb, ◌==◌,
}
use robloxstudio_mcp.Captures.{
  no_transfers, Transfer, Transfers, TransferId, absent, text, no_text, Captured, threw, returned,
  Returned, malformed, captured, valid_id, metadata, prune, release, begin_capture, accept_capture,
  finish_capture, expiry, read, max_transfers, max_transfer_bytes, is_current,
}
use robloxstudio_mcp.Captures.Slots.{
  SlotsInv, kept_bytes, remove-SlotsInv, prune-SlotsInv, reserve-SlotsInv, store_pixels-SlotsInv,
  read_chunk-SlotsInv, total_of_two,
}

pub data TransferEvent : Type 0 where
  begins : TransferId → ℕ → TransferEvent
  finishes : (id : String) → (stamp : ℕ) → Captured → TransferEvent
  expires : (id : String) → TransferEvent
  reads : TransferId → (offset count : ℕ) → TransferEvent
  releases : TransferId → TransferEvent

unfoldable pub step : ℕ → TransferEvent → Transfers → Transfers
step now (begins id ttl) s = (begin_capture now id ttl s).1
step now (finishes id stamp result) s = (finish_capture now id stamp result s).1
step now (expires id) s = expiry now id s
step now (reads id offset count) s = (read now id offset count s).1
step now (releases id) s = (release id s).1

unfoldable pub run : List (ℕ × TransferEvent) → Transfers → Transfers
run [] s = s
run ((now, e) ∷ es) s = run es (step now e s)

accept_capture-SlotsInv :
    (id : String) (t : Transfer) (result : Returned) (s : Transfers)
    → SlotsInv s
    → get id s.held ≡ some t
    → SlotsInv (accept_capture id t result s).1
unfolding accept_capture
accept_capture-SlotsInv id t malformed s v there = remove-SlotsInv id s v
accept_capture-SlotsInv id t (captured info pixels) s v there =
    elim (Option-cases (metadata info)) [
      | inl e ↦ rw (e, accept_capture) (remove-SlotsInv id s v)
      | inr (fields, e) ↦
          rw (e, accept_capture) (store_pixels-SlotsInv id t fields pixels s v there)
    ]

finish_capture-SlotsInv :
    (now : ℕ) (id : String) (stamp : ℕ) (result : Captured) (s : Transfers)
    → SlotsInv s
    → SlotsInv (finish_capture now id stamp result s).1
unfolding finish_capture
finish_capture-SlotsInv now id stamp threw s v =
    elim (Bool-cases (is_current stamp (get id s.held))) [
      | inl own ↦ rw (own, finish_capture) (remove-SlotsInv id s v)
      | inr other ↦ rw (other, finish_capture) v
    ]
finish_capture-SlotsInv now id stamp (returned result) s v = elim (Option-cases (get id s.held)) [
  | inl e ↦ rw (e, finish_capture) v
  | inr (t, e) ↦ elim (Bool-cases (t.stamp == stamp)) [
    | inr other ↦ rw (e, other, finish_capture) v
    | inl own ↦ elim (Bool-cases (leb t.expires_at now)) [
      | inl late ↦ rw (e, own, late, finish_capture) (remove-SlotsInv id s v)
      | inr live ↦ rw (e, own, live, finish_capture) (accept_capture-SlotsInv id t result s v e)
    ]
  ]
]

expiry-SlotsInv : (now : ℕ) (id : String) (s : Transfers) → SlotsInv s → SlotsInv (expiry now id s)
unfolding expiry
expiry-SlotsInv now id s v = elim (Option-cases (get id s.held)) [
  | inl e ↦ rw (e, expiry) v
  | inr (t, e) ↦ elim (Bool-cases (leb t.expires_at now)) [
    | inl late ↦ rw (e, late, expiry) (remove-SlotsInv id s v)
    | inr live ↦ rw (e, live, expiry) v
  ]
]

begin_capture-SlotsInv :
    (now : ℕ) (id : TransferId) (ttl : ℕ) (s : Transfers)
    → SlotsInv s
    → SlotsInv (begin_capture now id ttl s).1
unfolding begin_capture
begin_capture-SlotsInv now absent ttl s v = prune-SlotsInv now s v
begin_capture-SlotsInv now no_text ttl s v = prune-SlotsInv now s v
begin_capture-SlotsInv now (text id bytes) ttl s v =
    elim (Option-cases (valid_id (text id bytes))) [
      | inl e ↦ rw (e, begin_capture) (prune-SlotsInv now s v)
      | inr (key, e) ↦
          rw (e, begin_capture)
            (reserve-SlotsInv now key ttl (prune now s) (prune-SlotsInv now s v))
    ]

read-SlotsInv :
    (now : ℕ) (id : TransferId) (offset count : ℕ) (s : Transfers)
    → SlotsInv s
    → SlotsInv (read now id offset count s).1
unfolding read
read-SlotsInv now id offset count s v =
    let w = prune-SlotsInv now s v in
    elim (Option-cases (valid_id id)) [
      | inl e ↦ rw (e, read) w
      | inr (key, e) ↦ elim (Option-cases (get key (prune now s).held)) [
        | inl f ↦ rw (e, f, read) w
        | inr (t, f) ↦ elim (Option-cases t.pixels) [
          | inl g ↦ rw (e, f, g, read) (remove-SlotsInv key (prune now s) w)
          | inr (pixels, g) ↦
              rw (e, f, g, read) (read_chunk-SlotsInv key offset count pixels t (prune now s) w f g)
        ]
      ]
    ]

release-SlotsInv : (id : TransferId) (s : Transfers) → SlotsInv s → SlotsInv (release id s).1
unfolding release
release-SlotsInv id s v = elim (Option-cases (valid_id id)) [
  | inl e ↦ rw (e, release) v
  | inr (key, e) ↦ rw (e, release) (remove-SlotsInv key s v)
]

step-SlotsInv : (now : ℕ) (e : TransferEvent) (s : Transfers) → SlotsInv s → SlotsInv (step now e s)
unfolding step
step-SlotsInv now (begins id ttl) s v = begin_capture-SlotsInv now id ttl s v
step-SlotsInv now (finishes id stamp result) s v = finish_capture-SlotsInv now id stamp result s v
step-SlotsInv now (expires id) s v = expiry-SlotsInv now id s v
step-SlotsInv now (reads id offset count) s v = read-SlotsInv now id offset count s v
step-SlotsInv now (releases id) s v = release-SlotsInv id s v

run_from-SlotsInv :
    (es : List (ℕ × TransferEvent)) (s : Transfers) → SlotsInv s → SlotsInv (run es s)
unfolding run
run_from-SlotsInv [] s v = v
run_from-SlotsInv ((now, e) ∷ es) s v = run_from-SlotsInv es _ (step-SlotsInv now e s v)

-- However the starts and ends of captures, their reads, releases and expiry interleave from no
-- transfers, at most two transfers are held, and at most twice 64 MiB of pixels in them.
pub run_bounded :
    (es : List (ℕ × TransferEvent))
    → (size (run es no_transfers).held ≤ max_transfers)
      × (total kept_bytes (run es no_transfers).held ≤ max_transfers * max_transfer_bytes)
unfolding get
run_bounded es =
    let v : SlotsInv (run es no_transfers) =
      run_from-SlotsInv es no_transfers
        (record { distinct = tt; bounded = omega arith; small = λ id t e. cc }) in
    (
      v.bounded,
      omega (arith, v.bounded, total_of_two (run es no_transfers).held v.distinct v.small),
    )
