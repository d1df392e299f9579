-- ===== src/Captures/Receive.antt =====
-- `receive` of studio-plugin/src/modules/CaptureTransfer.ts, the side that asks for the pixels.
-- `invoke`, which calls the holder in another Studio process, is a parameter; it may throw.
use robloxstudio_mcp.Bytes.{Bytes}
use robloxstudio_mcp.Shared.{
  ℕ, zero, suc, ◌+◌, ◌-◌, String, true, false, Option, none, some, [], ◌++◌, ◌&&◌, ◌||◌, ◌==◌, not,
  length, ltb, if◌then◌else◌, Result, ok, err, str_eq,
}
use Prim.Native.Nat.{min}
use robloxstudio_mcp.Captures.{CaptureMetadata, chunk_bytes, metadata, valid_size}

-- What `invoke` of the read endpoint gives: an exception, no table, a table with an `error` text,
-- or one with the fields of a chunk, of which `data` may be no string.
pub data ChunkReply : Type 0 where
  threw no_table : ChunkReply
  chunk_error : String → ChunkReply
  chunk_fields : String → ℕ → Option Bytes → ChunkReply

-- The answer to the probe: whether it is a table that tells success and the same chunk size.
pub data Probe : Type 0 where
  probe_threw incapable capable : Probe

-- The answer to the request for a capture.
pub data CaptureReply : Type 0 where
  capture_threw capture_no_table : CaptureReply
  capture_unavailable capture_error : String → CaptureReply
  capture_fields : Option CaptureMetadata → String → Option ℕ → Option ℕ → CaptureReply

pub record Holder (W : Type 0) : Type 0 where
  pub probe : W → String → W × Probe
  pub capture : W → String → W × CaptureReply
  pub read : W → String → ℕ → ℕ → W × ChunkReply
  pub release : W → String → W

pub data ReceiveError : Type 0 where
  call_failed invalid_response invalid_metadata invalid_chunk_response chunk_mismatch : ReceiveError
  reported : String → ReceiveError

-- A chunk that answers the request for `count` bytes at `offset`.
unfoldable pub accept_reply : String → ℕ → ℕ → ChunkReply → Result ReceiveError Bytes
accept_reply id offset count threw = err call_failed
accept_reply id offset count no_table = err invalid_chunk_response
accept_reply id offset count (chunk_error text) = err (reported text)
accept_reply id offset count (chunk_fields key at none) = err chunk_mismatch
accept_reply id offset count (chunk_fields key at (some pixels)) =
    if not (str_eq key id) || not (at == offset) || not (length pixels == count)
    then err chunk_mismatch
    else ok pixels

-- The loop over the chunks, on fuel; `received` is what has arrived.
unfoldable pub receive_loop :
    {W : Type 0} → ℕ → Holder W → W → String → ℕ → ℕ → Bytes → W × Result ReceiveError Bytes
receive_loop zero h w id size offset received = (w, ok received)
receive_loop (suc fuel) h w id size offset received =
    let count = min chunk_bytes (size - offset) in
    let (v, reply) = h.read w id offset count in
    elim (ltb offset size) [
      | false ↦ (w, ok received)
      | true ↦ elim (accept_reply id offset count reply) [
        | err e ↦ (v, err e)
        | ok pixels ↦ receive_loop fuel h v id size (offset + count) (received ++ pixels)
      ]
    ]

pub data Receipt : Type 0 where
  image : CaptureMetadata → Bytes → Receipt
  unsupported_client : Receipt
  unavailable : String → Receipt
  failed : ReceiveError → Receipt

abbrev pub receipt : CaptureMetadata → Result ReceiveError Bytes → Receipt
receipt info (ok pixels) = image info pixels
receipt info (err e) = failed e

-- The metadata and the size, where they are valid.
unfoldable pub announced :
    String → Option CaptureMetadata → String → Option ℕ → Option ℕ → Option (CaptureMetadata × ℕ)
announced id none key chunk total = none
announced id (some fields) key none total = none
announced id (some fields) key (some chunk) none = none
announced id (some fields) key (some chunk) (some total) = elim (metadata fields) [
  | none ↦ none
  | some info ↦
      if str_eq key id && chunk == chunk_bytes && valid_size total info
      then some (info, total)
      else none
]

unfoldable pub receive_capture : {W : Type 0} → Holder W → String → W × CaptureReply → W × Receipt
receive_capture h id (w, capture_threw) = (w, failed call_failed)
receive_capture h id (w, capture_no_table) = (w, failed invalid_response)
receive_capture h id (w, capture_unavailable text) = (w, unavailable text)
receive_capture h id (w, capture_error text) = (w, failed (reported text))
receive_capture h id (w, capture_fields fields key chunk total) =
    elim (announced id fields key chunk total) [
      | none ↦ (w, failed invalid_metadata)
      | some (info, size) ↦
          let (v, result) = receive_loop (size + 1) h w id size 0 [] in (v, receipt info result)
    ]

unfoldable pub receive_probed : {W : Type 0} → Holder W → String → W × Probe → W × Receipt
receive_probed h id (w, probe_threw) = (w, failed call_failed)
receive_probed h id (w, incapable) = (w, unsupported_client)
receive_probed h id (w, capable) = receive_capture h id (h.capture w id)

-- Whatever comes of it, the transfer is released in the end.
unfoldable pub receive : {W : Type 0} → Holder W → W → String → W × Receipt
receive h w id = let (v, result) = receive_probed h id (h.probe w id) in (h.release v id, result)
