-- ===== src/Captures/Slots.antt =====
-- What the two transfer slots of CaptureTransfer.ts hold, whatever runs between the start of a
-- capture and its end.
use Prim.Native.Nat.{◌*◌}
use robloxstudio_mcp.Bytes.{Bytes}
use robloxstudio_mcp.Shared.{
  ℕ, ◌+◌, ◌≡◌, ◌≤◌, ◌<◌, refl, String, true, false, Option, none, some, [], ◌∷◌, Dict, get, put,
  has, size, total, Distinct, length, arith, Bool-cases, inl, inr, leb, ◌==◌, str_eq, eq_iff,
  get-put, get-remove, put-Distinct, remove-Distinct, size-put_new, size-put, size-remove-le, ◌⊎◌,
  or_else, subst, ap,
}
use robloxstudio_mcp.Captures.{
  new_transfer, Transfer, Transfers, CaptureMetadata, valid_size, discard, drop_expired, prune,
  reserve, store_pixels, read_chunk, is_next_chunk, max_transfers, max_transfer_bytes,
}

-- The bytes that a transfer keeps.
abbrev pub kept_bytes : Transfer → ℕ
kept_bytes t = elim t.pixels [ none ↦ 0 | some pixels ↦ length pixels ]

pub record SlotsInv (s : Transfers) : Type 0 where
  pub distinct : Distinct s.held
  pub bounded : size s.held ≤ max_transfers
  pub small :
      (id : String) (t : Transfer) → get id s.held ≡ some t → kept_bytes t ≤ max_transfer_bytes

pub remove-SlotsInv : (id : String) (s : Transfers) → SlotsInv s → SlotsInv (discard id s)
unfolding discard
remove-SlotsInv id s v = record {
  distinct = remove-Distinct id s.held v.distinct;
  bounded = omega (arith, size-remove-le id s.held, v.bounded);
  small = λ k t e. v.small k t (ground (arith, get-remove id k s.held));
}

get-drop_expired :
    (now : ℕ) (k : String) (m : Dict Transfer)
    → Distinct m
    → (get k (drop_expired now m) ≡ none) ⊎ (get k (drop_expired now m) ≡ get k m)
unfolding drop_expired get
get-drop_expired now k [] d = inl refl
get-drop_expired now k ((id, u) ∷ m) d =
    ground (arith, eq_iff id k, eq_iff k id, get-drop_expired now k m d.1, ap (λ i. get i m))

none-drop_expired :
    (now : ℕ) (k : String) (m : Dict Transfer) → get k m ≡ none → get k (drop_expired now m) ≡ none
unfolding drop_expired get
none-drop_expired now k [] e = refl
none-drop_expired now k ((id, u) ∷ m) e = ground (arith, none-drop_expired now k m)

drop_expired-Distinct : (now : ℕ) (m : Dict Transfer) → Distinct m → Distinct (drop_expired now m)
unfolding drop_expired
drop_expired-Distinct now [] d = d
drop_expired-Distinct now ((id, u) ∷ m) d = elim (Bool-cases (leb u.expires_at now)) [
  | inl over ↦ rw (over, drop_expired) (drop_expired-Distinct now m d.1)
  | inr live ↦
      rw (live, drop_expired) (none-drop_expired now id m d.0, drop_expired-Distinct now m d.1)
]

size-drop_expired : (now : ℕ) (m : Dict Transfer) → size (drop_expired now m) ≤ size m
unfolding drop_expired
size-drop_expired now [] = omega arith
size-drop_expired now ((id, u) ∷ m) = ground (arith, size-drop_expired now m)

pub prune-SlotsInv : (now : ℕ) (s : Transfers) → SlotsInv s → SlotsInv (prune now s)
unfolding prune
prune-SlotsInv now s v = record {
  distinct = drop_expired-Distinct now s.held v.distinct;
  bounded = omega (arith, size-drop_expired now s.held, v.bounded);
  small = λ k t e. v.small k t (ground (arith, get-drop_expired now k s.held v.distinct));
}

-- A transfer that is replaced, or a new one where a slot is free.
put-SlotsInv :
    (id : String) (t : Transfer) (next : ℕ) (s : Transfers)
    → SlotsInv s
    → kept_bytes t ≤ max_transfer_bytes
    → size (put id t s.held) ≤ max_transfers
    → SlotsInv (record { held = put id t s.held; next_stamp = next })
put-SlotsInv id t next s v fit room = record {
  distinct = put-Distinct id t s.held v.distinct;
  bounded = room;
  small = λ k u e. elim (Bool-cases (str_eq id k)) [
    | inl same ↦
        let f : some t ≡ some u = ground (arith, get-put id k t s.held) in
        subst (λ w. kept_bytes w ≤ max_transfer_bytes) (ap (λ o. or_else o t) f) fit
    | inr other ↦ v.small k u (ground (arith, get-put id k t s.held))
  ];
}

free_slot : {n : ℕ} → leb max_transfers n ≡ false → n < max_transfers
free_slot {n} e = ground arith

pub reserve-SlotsInv :
    (now : ℕ) (id : String) (ttl : ℕ) (s : Transfers)
    → SlotsInv s
    → SlotsInv (reserve now id ttl s).1
unfolding reserve
reserve-SlotsInv now id ttl s v = elim (Bool-cases (has id s.held)) [
  | inl taken ↦ rw (taken, reserve) v
  | inr free ↦ elim (Bool-cases (leb max_transfers (size s.held))) [
    | inl full ↦ rw (free, full, reserve) v
    | inr room ↦
        rw (free, room, reserve)
          (put-SlotsInv id (new_transfer now ttl s.next_stamp) (s.next_stamp + 1) s v (omega arith)
            (omega (
              arith,
              size-put_new id (new_transfer now ttl s.next_stamp) s.held (ground arith),
              free_slot room,
            )))
  ]
]

valid_size-≤ : (n : ℕ) (info : CaptureMetadata) → valid_size n info ≡ true → n ≤ max_transfer_bytes
unfolding valid_size
valid_size-≤ n info e = ground arith

pub store_pixels-SlotsInv :
    (id : String) (t : Transfer) (info : CaptureMetadata) (pixels : Option Bytes) (s : Transfers)
    → SlotsInv s
    → get id s.held ≡ some t
    → SlotsInv (store_pixels id t info pixels s).1
unfolding store_pixels
store_pixels-SlotsInv id t info none s v there = remove-SlotsInv id s v
store_pixels-SlotsInv id t info (some pixels) s v there =
    elim (Bool-cases (valid_size (length pixels) info)) [
      | inr bad ↦ rw (bad, store_pixels) (remove-SlotsInv id s v)
      | inl good ↦
          rw (good, store_pixels)
            (put-SlotsInv id (record t { pixels = some pixels }) s.next_stamp s v
              (valid_size-≤ (length pixels) info good)
              (omega
                (arith, size-put id (record t { pixels = some pixels }) t s.held there, v.bounded)))
    ]

pub read_chunk-SlotsInv :
    (id : String) (offset count : ℕ) (pixels : Bytes) (t : Transfer) (s : Transfers)
    → SlotsInv s
    → get id s.held ≡ some t
    → t.pixels ≡ some pixels
    → SlotsInv (read_chunk id offset count pixels t s).1
unfolding read_chunk
read_chunk-SlotsInv id offset count pixels t s v there e =
    elim (Bool-cases (is_next_chunk offset count pixels t)) [
      | inr bad ↦ rw (bad, read_chunk) (remove-SlotsInv id s v)
      | inl good ↦ elim (Bool-cases (t.offset + count == length pixels)) [
        | inl last ↦ rw (good, last, read_chunk) (remove-SlotsInv id s v)
        | inr more ↦
            rw (good, more, read_chunk)
              (put-SlotsInv id (record t { offset = t.offset + count }) s.next_stamp s v
                (ground (arith, v.small id t there))
                (omega (
                  arith,
                  size-put id (record t { offset = t.offset + count }) t s.held there,
                  v.bounded,
                )))
      ]
    ]

pub total_of_two :
    (m : Dict Transfer)
    → Distinct m
    → ((id : String) (t : Transfer) → get id m ≡ some t → kept_bytes t ≤ max_transfer_bytes)
    → total kept_bytes m ≤ size m * max_transfer_bytes
unfolding total get
total_of_two [] d small = omega arith
total_of_two ((id, t) ∷ m) d small =
    let rest =
      total_of_two m d.1
        (λ k u f. small k u (ground (arith, d.0, eq_iff id k, ap (λ i. get i m)))) in
    let first = small id t (ground (arith, eq_iff id id)) in omega (arith, rest, first)
