-- ===== src/Captures/Chunks.antt =====
-- The two sides of studio-plugin/src/modules/CaptureTransfer.ts together.
use robloxstudio_mcp.Bytes.{Bytes, take, drop, drop_add, take-drop, length-drop, length-take}
use robloxstudio_mcp.Shared.{
  ℕ, zero, suc, ◌+◌, ◌-◌, ◌≡◌, ◌≤◌, ◌<◌, refl, String, true, false, none, some, [], ◌∷◌, ◌++◌, Dict,
  get, put, get-put, get-remove, length, arith, Bool-cases, inl, inr, ltb, ◌==◌, eq_iff, Result, ok,
  Result-cases, ap, sym, ◌∙◌, subst, append_assoc, append-nil, if◌then◌else◌,
}
use Prim.Native.Nat.{min}
use robloxstudio_mcp.Luau.{sub}
use robloxstudio_mcp.Captures.{
  Transfer, Transfers, Failure, ReadReply, chunk, read_failed, text, valid_id, drop_expired, prune,
  discard, chunk_bytes, is_next_chunk, read_chunk, read,
}
use robloxstudio_mcp.Captures.Receive.{
  ChunkReply, chunk_error, chunk_fields, Holder, ReceiveError, accept_reply, receive_loop,
}

-- A holder's reply as it arrives; `texts` are the messages of failures.
abbrev pub delivered : (Failure → String) → String → ReadReply → ChunkReply
delivered texts id (chunk offset pixels) = chunk_fields id offset (some pixels)
delivered texts id (read_failed f) = chunk_error (texts f)

-- A holder whose reads are those of its transfers, at the times that the clock gives for its calls;
-- the identifier is a GUID of 36 characters.
abbrev pub reading : (ℕ → ℕ) → (Failure → String) → Holder (ℕ × Transfers) → Holder (ℕ × Transfers)
reading clock texts h = record h {
  read = λ w id offset count.
      let (reply, s) = read (clock w.0) (text id 36) offset count w.1 in
      ((w.0 + 1, s), delivered texts id reply);
}

abbrev pub holding : ℕ → Bytes → ℕ → ℕ → Transfer
holding stamp pixels offset expires_at = record {
  stamp = stamp;
  pixels = some pixels;
  offset = offset;
  expires_at = expires_at;
}

get-drop_expired_live :
    (now : ℕ) (id : String) (t : Transfer) (m : Dict Transfer)
    → get id m ≡ some t
    → now < t.expires_at
    → get id (drop_expired now m) ≡ some t
unfolding get drop_expired
get-drop_expired_live now id t [] g l = cc
get-drop_expired_live now id t ((k, u) ∷ m) g l = ground (arith, get-drop_expired_live now id t m)

-- The count that the receiver asks for.
abbrev asked : Bytes → ℕ → ℕ
asked p o = min chunk_bytes (length p - o)

read-read_chunk :
    (now stamp o e count : ℕ) (id : String) (s : Transfers) (p : Bytes)
    → get id (prune now s).held ≡ some (holding stamp p o e)
    → read now (text id 36) o count s ≡ read_chunk id o count p (holding stamp p o e) (prune now s)
unfolding read valid_id
read-read_chunk now stamp o e count id s p there = rw (there, read)

read_chunk-next :
    (id : String) (p : Bytes) (t : Transfer) (s : Transfers)
    → t.offset < length p
    → read_chunk id t.offset (asked p t.offset) p t s ≡ (
      chunk t.offset (sub p (t.offset + 1) (t.offset + asked p t.offset)),
      (if t.offset + asked p t.offset == length p then discard id s else record s {
        held = put id (record t { offset = t.offset + asked p t.offset }) s.held;
      }),
    )
unfolding read_chunk
read_chunk-next id p t s h =
    let next : is_next_chunk t.offset (asked p t.offset) p t ≡ true = ground arith in rw (next)

read-next :
    (now stamp o e : ℕ) (id : String) (p : Bytes) (s : Transfers)
    → get id s.held ≡ some (holding stamp p o e)
    → now < e
    → o < length p
    → read now (text id 36) o (asked p o) s ≡ (
      chunk o (sub p (o + 1) (o + asked p o)),
      (if o + asked p o == length p then discard id (prune now s) else record (prune now s) {
        held = put id (holding stamp p (o + asked p o) e) (prune now s).held;
      }),
    )
unfolding prune
read-next now stamp o e id p s g l h =
    let t : Transfer = holding stamp p o e in
    read-read_chunk now stamp o e (asked p o) id s p (get-drop_expired_live now id t s.held g l)
    ∙ read_chunk-next id p t (prune now s) h

loop_done :
    {W : Type 0} (fuel : ℕ) (h : Holder W) (w : W) (id : String) (size : ℕ) (received : Bytes)
    → receive_loop fuel h w id size size received ≡ (w, ok received)
unfolding receive_loop
loop_done zero h w id size received = refl
loop_done (suc fuel) h w id size received =
    let ended : ltb size size ≡ false = ground arith in rw (ended, receive_loop)

loop_next :
    {W : Type 0} (fuel : ℕ) (h : Holder W) (w v : W) (id : String) (size offset : ℕ)
    (received pixels : Bytes) (reply : ChunkReply)
    → offset < size
    → h.read w id offset (min chunk_bytes (size - offset)) ≡ (v, reply)
    → accept_reply id offset (min chunk_bytes (size - offset)) reply ≡ ok pixels
    → receive_loop (suc fuel) h w id size offset received
      ≡ receive_loop fuel h v id size
          (offset + min chunk_bytes (size - offset))
          (received ++ pixels)
unfolding receive_loop
loop_next fuel h w v id size offset received pixels reply l r a =
    let more : ltb offset size ≡ true = ground arith in
    rw (more, r, a, receive_loop)
      (ap
        (λ k.
          receive_loop fuel h k.0 id size (offset + min chunk_bytes (size - offset))
            (received ++ pixels))
        r)

piece_of : (p : Bytes) (o count : ℕ) → sub p (o + 1) (o + count) ≡ take count (drop o p)
piece_of p o count =
    ap (λ k. take k (drop (o + 1 - 1) p)) (omega arith)
    ∙ ap (λ k. take count (drop k p)) (omega arith)

length-piece :
    (p : Bytes) (o : ℕ) → o < length p → length (sub p (o + 1) (o + asked p o)) ≡ asked p o
length-piece p o l =
    ap length (piece_of p o (asked p o))
    ∙ length-take (asked p o) (drop o p) (omega (arith, length-drop o p))

accept_reply-chunk :
    (id : String) (offset count : ℕ) (pixels : Bytes)
    → length pixels ≡ count
    → accept_reply id offset count (chunk_fields id offset (some pixels)) ≡ ok pixels
unfolding accept_reply
accept_reply-chunk id offset count pixels l = ground (arith, eq_iff id id)

rejoined :
    (p received : Bytes) (o : ℕ)
    → (received ++ sub p (o + 1) (o + asked p o)) ++ drop (o + asked p o) p ≡ received ++ drop o p
rejoined p received o =
    append_assoc received (sub p (o + 1) (o + asked p o)) (drop (o + asked p o) p)
    ∙ ap (λ t. received ++ t)
        (ap (λ t. t ++ drop (o + asked p o) p) (piece_of p o (asked p o))
          ∙ ap (λ t. take (asked p o) (drop o p) ++ t) (sym (drop_add (asked p o) o p))
          ∙ take-drop (asked p o) (drop o p))

drop_all : (n : ℕ) (s : Bytes) → length s ≤ n → drop n s ≡ []
unfolding drop
drop_all n [] h = refl
drop_all zero (b ∷ s) h = absurd (omega arith)
drop_all (suc n) (b ∷ s) h = drop_all n s (omega arith)

gone : (id : String) (s : Transfers) → get id (discard id s).held ≡ none
unfolding discard
gone id s = ground (arith, get-remove id id s.held, eq_iff id id)

kept_there : (id : String) (t : Transfer) (s : Transfers) → get id (put id t s.held) ≡ some t
kept_there id t s = ground (arith, get-put id id t s.held, eq_iff id id)

-- Where the holder has the pixels under an identifier with some offset below their size as the
-- next one, and its clock stays before their expiry at every call, a receiver that has at least as
-- much fuel as bytes are left gets exactly the bytes from that offset on after those it has, and
-- the holder's transfer is freed.
pub receive_loop-pixels :
    (fuel : ℕ) (clock : ℕ → ℕ) (texts : Failure → String) (h : Holder (ℕ × Transfers)) (id : String)
    (calls stamp expires_at offset : ℕ) (s : Transfers) (pixels received : Bytes)
    → get id s.held ≡ some (holding stamp pixels offset expires_at)
    → ((k : ℕ) → clock k < expires_at)
    → offset < length pixels
    → length pixels ≤ fuel + offset
    → ((receive_loop fuel (reading clock texts h) (calls, s) id (length pixels) offset received).1
        ≡ ok (received ++ drop offset pixels))
      × (get id
            (receive_loop fuel
              (reading clock texts h)
              (calls, s)
              id
              (length pixels)
              offset
              received).0.1.held
          ≡ none)
receive_loop-pixels zero clock texts h id calls stamp e o s p received g c l f =
    absurd (omega arith)
receive_loop-pixels (suc fuel) clock texts h id calls stamp e o s p received g c l f =
    let count : ℕ = asked p o in
    let piece : Bytes = sub p (o + 1) (o + count) in
    let w : ℕ × Transfers = (calls, s) in
    let here : Holder (ℕ × Transfers) = reading clock texts h in
    let kept : Transfers = prune (clock calls) s in
    let after : Transfers =
      if o + count == length p
      then discard id kept
      else record kept { held = put id (holding stamp p (o + count) e) kept.held } in
    let step : receive_loop (suc fuel) here w id (length p) o received
        ≡ receive_loop fuel here (calls + 1, after) id (length p) (o + count) (received ++ piece) =
      loop_next fuel here w (calls + 1, after) id (length p) o received piece
        (delivered texts id (chunk o piece)) l
        (ap (λ r. ((calls + 1, r.1), delivered texts id r.0))
          (read-next (clock calls) stamp o e id p s g (c calls) l))
        (accept_reply-chunk id o count piece (length-piece p o l)) in
    let goal : (ℕ × Transfers) × Result ReceiveError Bytes → Type 0 =
      λ r. (r.1 ≡ ok (received ++ drop o p)) × (get id r.0.1.held ≡ none) in
    elim (Bool-cases (o + count == length p)) [
      | inl last ↦
          let full : o + count ≡ length p = ground (arith, last) in
          let freed : after ≡ discard id kept = rw (last) in
          let ended : receive_loop (suc fuel) here w id (length p) o received
              ≡ ((calls + 1, discard id kept), ok (received ++ piece)) =
            step
            ∙ ap
                (λ n. receive_loop fuel here (calls + 1, after) id (length p) n (received ++ piece))
                full
            ∙ loop_done fuel here (calls + 1, after) id (length p) (received ++ piece)
            ∙ ap (λ t. ((calls + 1, t), ok (received ++ piece))) freed in
          subst goal (sym ended) (
            ap ok (
                sym (append-nil (received ++ piece))
                ∙ ap (λ t. (received ++ piece) ++ t) (sym (drop_all (o + count) p (omega arith)))
                ∙ rejoined p received o),
            gone id kept,
          )
      | inr more ↦
          let left : after
              ≡ record kept { held = put id (holding stamp p (o + count) e) kept.held } =
            rw (more) in
          let (got, freed) =
            receive_loop-pixels fuel clock texts h id (calls + 1) stamp e (o + count) after p
              (received ++ piece)
              (ap (λ t. get id t.held) left ∙ kept_there id (holding stamp p (o + count) e) kept) c
              (ground (arith, more)) (omega arith) in
          subst goal (sym step) (got ∙ ap ok (rejoined p received o), freed)
    ]

-- Whatever the holder replies, the receiving loop gives the same result for every fuel of at least
-- the bytes that are left.
pub receive_loop-fuel :
    {W : Type 0} (fuel more : ℕ) (h : Holder W) (w : W) (id : String) (size offset : ℕ)
    (received : Bytes)
    → size ≤ fuel + offset
    → size ≤ more + offset
    → receive_loop fuel h w id size offset received ≡ receive_loop more h w id size offset received
unfolding receive_loop
receive_loop-fuel zero zero h w id size offset received f m = refl
receive_loop-fuel zero (suc more) h w id size offset received f m =
    let ended : ltb offset size ≡ false = ground arith in rw (ended, receive_loop)
receive_loop-fuel (suc fuel) zero h w id size offset received f m =
    let ended : ltb offset size ≡ false = ground arith in rw (ended, receive_loop)
receive_loop-fuel (suc fuel) (suc more) h w id size offset received f m =
    elim (Bool-cases (ltb offset size)) [
      | inr ended ↦ rw (ended, receive_loop)
      | inl going ↦
          let count = min chunk_bytes (size - offset) in
          elim (Result-cases (accept_reply id offset count (h.read w id offset count).1)) [
            | inr (e, refused) ↦ rw (going, refused, receive_loop)
            | inl (pixels, got) ↦
                rw (going, got, receive_loop)
                  (receive_loop-fuel fuel more h (h.read w id offset count).0 id size
                    (offset + count) (received ++ pixels) (omega arith) (omega arith))
          ]
    ]
