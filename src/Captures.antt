-- ===== src/Captures.antt =====
-- The transfer of captures in chunks: studio-plugin/src/modules/CaptureTransfer.ts, the side that
-- holds the pixels.
pub mod Histories
pub mod Receive
pub mod Chunks
pub mod Slots
use robloxstudio_mcp.Bytes.{Bytes}
use robloxstudio_mcp.Shared.{
  ℕ, ◌+◌, ◌-◌, String, Bool, true, false, Option, none, some, List, [], ◌∷◌, ◌&&◌, ◌||◌, ◌==◌, Dict,
  get, put, remove, has, size, length, ltb, leb, if◌then◌else◌, is_some, not, max,
}
use Prim.Native.Nat.{◌*◌, ◌/◌, ◌%◌, min}
use robloxstudio_mcp.Luau.{sub}

abbrev pub chunk_bytes : ℕ
chunk_bytes = 1048576

abbrev pub max_transfer_bytes : ℕ
max_transfer_bytes = 67108864

abbrev pub max_transfers : ℕ
max_transfers = 2

abbrev pub transfer_ttl : ℕ
transfer_ttl = 60

pub data Encoding : Type 0 where
  png rgba8 : Encoding

-- `CaptureMetadata`; `success` and `source` are constants.
pub record CaptureMetadata : Type 0 where
  pub encoding : Encoding
  pub width : ℕ
  pub height : ℕ
  pub native_width : ℕ
  pub native_height : ℕ

-- `stamp` tells the objects apart that one identifier names in the course of time.
pub record Transfer : Type 0 where
  pub stamp : ℕ
  pub pixels : Option Bytes
  pub offset : ℕ
  pub expires_at : ℕ

pub record Transfers : Type 0 where
  pub held : Dict Transfer
  pub next_stamp : ℕ

abbrev pub no_transfers : Transfers
no_transfers = record { held = []; next_stamp = 0 }

-- A field of a request: absent, a string with its bytes counted, or something else.
pub data TransferId : Type 0 where
  absent : TransferId
  text : String → ℕ → TransferId
  no_text : TransferId

unfoldable pub valid_id : TransferId → Option String
valid_id (text id bytes) = if ltb 0 bytes && leb bytes 64 then some id else none
valid_id _ = none

abbrev pub is_within : ℕ → ℕ → ℕ → Bool
is_within value low high = leb low value && leb value high

-- `metadata`, of the fields that are whole numbers.
unfoldable pub metadata : CaptureMetadata → Option CaptureMetadata
metadata info =
    if is_within info.width 1 65536
      && is_within info.height 1 65536
      && is_within info.native_width 1 65536
      && is_within info.native_height 1 65536
    then some info
    else none

abbrev pub is_rgba8 : Encoding → Bool
is_rgba8 png = false
is_rgba8 rgba8 = true

-- `validSize`; `math.ceil(n / 3)` is `(n + 2) / 3` on whole numbers.
unfoldable pub valid_size : ℕ → CaptureMetadata → Bool
valid_size bytes info =
    is_within bytes 4 max_transfer_bytes
    && (bytes % 4 == 0)
    && (not (is_rgba8 info.encoding) || (bytes == (info.width * info.height * 4 + 2) / 3 * 4))

unfoldable pub discard : String → Transfers → Transfers
discard id s = record s { held = remove id s.held }

unfoldable pub drop_expired : ℕ → Dict Transfer → Dict Transfer
drop_expired now [] = []
drop_expired now ((id, t) ∷ m) =
    let rest = drop_expired now m in if leb t.expires_at now then rest else (id, t) ∷ rest

unfoldable pub prune : ℕ → Transfers → Transfers
prune now s = record s { held = drop_expired now s.held }

pub data Failure : Type 0 where
  invalid_id duplicate_id slots_taken unknown_transfer invalid_chunk : Failure
  capture_failed capture_expired invalid_response invalid_data : Failure

pub data Released : Type 0 where
  released : Released
  not_released : Failure → Released

unfoldable pub release : TransferId → Transfers → Released × Transfers
release id s = elim (valid_id id) [
  | none ↦ (not_released invalid_id, s)
  | some key ↦ (released, discard key s)
]

-- `begin` up to the capture: `reserved` holds the object that the capture is for.
pub data Reservation : Type 0 where
  unsupported : Reservation
  refused : Failure → Reservation
  reserved : String → ℕ → Reservation

abbrev pub clamp_ttl : ℕ → ℕ
clamp_ttl ttl = min (max ttl 1) transfer_ttl

abbrev pub new_transfer : ℕ → ℕ → ℕ → Transfer
new_transfer now ttl stamp = record {
  stamp = stamp;
  pixels = none;
  offset = 0;
  expires_at = now + clamp_ttl ttl;
}

unfoldable pub reserve : ℕ → String → ℕ → Transfers → Reservation × Transfers
reserve now id ttl s =
    if has id s.held
    then (refused duplicate_id, s)
    else if leb max_transfers (size s.held)
    then (refused slots_taken, s)
    else (
      reserved id s.next_stamp,
      record {
        held = put id (new_transfer now ttl s.next_stamp) s.held;
        next_stamp = s.next_stamp + 1;
      },
    )

unfoldable pub begin_capture : ℕ → TransferId → ℕ → Transfers → Reservation × Transfers
begin_capture now absent ttl s = (unsupported, prune now s)
begin_capture now no_text ttl s = (refused invalid_id, prune now s)
begin_capture now (text id bytes) ttl s = elim (valid_id (text id bytes)) [
  | none ↦ (refused invalid_id, prune now s)
  | some key ↦ reserve now key ttl (prune now s)
]

-- What the capture returns: something without the fields of metadata (its own error text is not
-- modelled), or metadata with the pixels, if these are a string.
pub data Returned : Type 0 where
  malformed : Returned
  captured : CaptureMetadata → Option Bytes → Returned

-- What `pcall(capture)` gives.
pub data Captured : Type 0 where
  threw : Captured
  returned : Returned → Captured

pub data Begun : Type 0 where
  begun : ℕ → CaptureMetadata → Begun
  begin_failed : Failure → Begun

-- `transfers.get(id) === transfer`.
abbrev pub is_current : ℕ → Option Transfer → Bool
is_current stamp none = false
is_current stamp (some t) = t.stamp == stamp

abbrev pub discard_own : String → ℕ → Transfers → Transfers
discard_own id stamp s = if is_current stamp (get id s.held) then discard id s else s

-- The pixels are stored.
unfoldable pub store_pixels :
    String → Transfer → CaptureMetadata → Option Bytes → Transfers → Begun × Transfers
store_pixels id t info none s = (begin_failed invalid_data, discard id s)
store_pixels id t info (some pixels) s =
    if valid_size (length pixels) info
    then (
      begun (length pixels) info,
      record s { held = put id (record t { pixels = some pixels }) s.held },
    )
    else (begin_failed invalid_data, discard id s)

unfoldable pub accept_capture : String → Transfer → Returned → Transfers → Begun × Transfers
accept_capture id t malformed s = (begin_failed invalid_response, discard id s)
accept_capture id t (captured info pixels) s = elim (metadata info) [
  | none ↦ (begin_failed invalid_response, discard id s)
  | some fields ↦ store_pixels id t fields pixels s
]

-- `begin` once the capture has returned; others may have run meanwhile.
unfoldable pub finish_capture : ℕ → String → ℕ → Captured → Transfers → Begun × Transfers
finish_capture now id stamp threw s = (begin_failed capture_failed, discard_own id stamp s)
finish_capture now id stamp (returned result) s = elim (get id s.held) [
  | none ↦ (begin_failed capture_expired, s)
  | some t ↦
      if not (t.stamp == stamp)
      then (begin_failed capture_expired, s)
      else if leb t.expires_at now
      then (begin_failed capture_expired, discard id s)
      else accept_capture id t result s
]

-- The expiry thread of a transfer, which looks at what the identifier names by then.
unfoldable pub expiry : ℕ → String → Transfers → Transfers
expiry now id s = elim (get id s.held) [
  | none ↦ s
  | some t ↦ if leb t.expires_at now then discard id s else s
]

pub data ReadReply : Type 0 where
  chunk : ℕ → Bytes → ReadReply
  read_failed : Failure → ReadReply

abbrev pub is_next_chunk : ℕ → ℕ → Bytes → Transfer → Bool
is_next_chunk offset count pixels t =
    ltb offset (length pixels)
    && is_within count 1 chunk_bytes
    && (offset == t.offset)
    && (count == min chunk_bytes (length pixels - offset))

unfoldable pub read_chunk : String → ℕ → ℕ → Bytes → Transfer → Transfers → ReadReply × Transfers
read_chunk id offset count pixels t s =
    if is_next_chunk offset count pixels t
    then (
      chunk offset (sub pixels (offset + 1) (offset + count)),
      if t.offset + count == length pixels
          then discard id s
          else record s { held = put id (record t { offset = t.offset + count }) s.held },
    )
    else (read_failed invalid_chunk, discard id s)

-- `read`, of an offset and a length that are whole numbers.
unfoldable pub read : ℕ → TransferId → ℕ → ℕ → Transfers → ReadReply × Transfers
read now id offset count u =
    let s = prune now u in
    elim (valid_id id) [
      | none ↦ (read_failed invalid_id, s)
      | some key ↦ elim (get key s.held) [
        | none ↦ (read_failed unknown_transfer, s)
        | some t ↦ elim t.pixels [
          | none ↦ (read_failed invalid_chunk, discard key s)
          | some pixels ↦ read_chunk key offset count pixels t s
        ]
      ]
    ]
