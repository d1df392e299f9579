-- ===== src/Png/Written.antt =====
-- The chunks that `writeChunk` writes, in the loop of `inflatePng`.
use robloxstudio_mcp.Bytes.{Bytes, take, drop, take-append, drop-append}
use robloxstudio_mcp.Shared.{
  ℕ, suc, ◌+◌, ◌-◌, ◌*◌, ◌/◌, ◌%◌, ◌≤◌, ◌<◌, ◌≡◌, refl, false, [], ◌∷◌, ◌++◌, length, length-append,
  ltb, if◌then◌else◌, arith, ok, ap, sym, ◌∙◌, append_assoc,
}
use robloxstudio_mcp.Png.{byte_at, read_u32, write_u32}
use robloxstudio_mcp.Png.Chunks.{Scan, ascii, split_chunk, accept_chunk, scan_chunks}
use robloxstudio_mcp.Png.Encoder.{crc32, write_chunk}

unfoldable pub u32 : ℕ → Bytes
u32 n = (n / 16777216) ∷ (n / 65536 % 256) ∷ (n / 256 % 256) ∷ (n % 256) ∷ []

pub length-u32 : (n : ℕ) → length (u32 n) ≡ 4
unfolding u32
length-u32 n = refl

pub write_u32-u32 : (n : ℕ) → n < 4294967296 → write_u32 n ≡ ok (u32 n)
unfolding write_u32 u32
write_u32-u32 n h = ground arith

pub read_u32-u32 : (n : ℕ) (rest : Bytes) → n < 4294967296 → read_u32 (u32 n ++ rest) ≡ n
unfolding read_u32 u32 byte_at
read_u32-u32 n rest h = omega arith

crc32_bounded : (buf : Bytes) → crc32 buf < 4294967296
unfolding crc32
crc32_bounded buf = omega arith

unfoldable pub chunk_bytes : Bytes → Bytes → Bytes
chunk_bytes type payload =
    u32 (length payload) ++ (type ++ (payload ++ u32 (crc32 (type ++ payload))))

pub write_chunk-chunk_bytes :
    (type payload : Bytes)
    → length payload < 4294967296
    → write_chunk type payload ≡ ok (chunk_bytes type payload)
unfolding write_chunk chunk_bytes
write_chunk-chunk_bytes type payload h = rw (
  write_u32-u32 (length payload) h,
  write_u32-u32 (crc32 (type ++ payload)) (crc32_bounded (type ++ payload)),
)

chunk_bytes-append :
    (type payload rest : Bytes)
    → chunk_bytes type payload ++ rest
      ≡ u32 (length payload) ++ (type ++ (payload ++ (u32 (crc32 (type ++ payload)) ++ rest)))
unfolding chunk_bytes
chunk_bytes-append type payload rest =
    let crc : Bytes = u32 (crc32 (type ++ payload)) in
    rw (
      append_assoc (u32 (length payload)) (type ++ (payload ++ crc)) rest,
      append_assoc type (payload ++ crc) rest,
      append_assoc payload crc rest,
    )

pub length-chunk_bytes :
    (type payload : Bytes)
    → length type ≡ 4
    → length (chunk_bytes type payload) ≡ 12 + length payload
unfolding chunk_bytes u32
length-chunk_bytes type payload h =
    let crc : Bytes = u32 (crc32 (type ++ payload)) in
    omega (arith, h, length-append type (payload ++ crc), length-append payload crc)

abbrev pub IsType : Bytes → Type 0
IsType type = (length type ≡ 4) × (ascii type ≡ type)

split_chunk-chunk_bytes :
    (m count : ℕ) (type payload rest : Bytes)
    → IsType type
    → length payload ≤ m
    → m < 4294967296
    → count < 65536
    → split_chunk m count (chunk_bytes type payload ++ rest) ≡ ok (type, payload)
unfolding split_chunk
split_chunk-chunk_bytes m count type payload rest t h b c =
    let n : ℕ = length payload in
    let file : Bytes = chunk_bytes type payload ++ rest in
    let after : Bytes = payload ++ (u32 (crc32 (type ++ payload)) ++ rest) in
    let shape : file ≡ u32 n ++ (type ++ after) = chunk_bytes-append type payload rest in
    let long : length file ≡ 12 + n + length rest =
      length-append (chunk_bytes type payload) rest
      ∙ ap (λ k. k + length rest) (length-chunk_bytes type payload t.0) in
    let size : read_u32 file ≡ n =
      ap read_u32 shape ∙ read_u32-u32 n (type ++ after) (omega arith) in
    let typed : take 4 (drop 4 file) ≡ type =
      ap (λ f. take 4 (drop 4 f)) shape
      ∙ ap (take 4) (drop-append 4 (u32 n) (type ++ after) (length-u32 n))
      ∙ take-append 4 type after t.0 in
    let loaded : take n (drop 8 file) ≡ payload =
      ap (λ f. take n (drop 8 f)) (shape ∙ sym (append_assoc (u32 n) type after))
      ∙ ap (take n) (
          drop-append 8 (u32 n ++ type) after (
            length-append (u32 n) type
            ∙ ap (λ k. length (u32 n) + k) t.0
            ∙ ap (λ k. k + 4) (length-u32 n)))
      ∙ take-append n payload (u32 (crc32 (type ++ payload)) ++ rest) refl in
    let headed : ltb (length file) 12 ≡ false = ground (arith, long) in
    let small : ltb m n ≡ false = ground arith in
    let few : ltb 65536 (count + 1) ≡ false = ground arith in
    let whole : ltb (length file - 12) n ≡ false = ground (arith, long) in
    rw (headed, size, small, few, whole, typed, loaded, t.1)

scan_chunks-chunk :
    (fuel m : ℕ) (type chunk file rest : Bytes) (s next : Scan)
    → 1 ≤ length file
    → split_chunk (m * 4) s.chunk_count file ≡ ok (type, chunk)
    → accept_chunk m type chunk (record s { chunk_count = s.chunk_count + 1 }) ≡ ok next
    → drop (12 + length chunk) file ≡ rest
    → scan_chunks (suc fuel) m file s
      ≡ (if next.saw_iend then ok next else scan_chunks fuel m rest next)
unfolding scan_chunks
scan_chunks-chunk fuel m type chunk [] rest s next l p a d = absurd (omega arith)
scan_chunks-chunk fuel m type chunk (b ∷ file) rest s next l p a d = rw (p, a, d)

pub scan_chunks-chunk_bytes :
    (fuel m : ℕ) (type payload rest : Bytes) (s next : Scan)
    → IsType type
    → length payload ≤ m * 4
    → m * 4 < 4294967296
    → s.chunk_count < 65536
    → accept_chunk m type payload (record s { chunk_count = s.chunk_count + 1 }) ≡ ok next
    → scan_chunks (suc fuel) m (chunk_bytes type payload ++ rest) s
      ≡ (if next.saw_iend then ok next else scan_chunks fuel m rest next)
scan_chunks-chunk_bytes fuel m type payload rest s next t h b c a =
    let l : length (chunk_bytes type payload) ≡ 12 + length payload =
      length-chunk_bytes type payload t.0 in
    scan_chunks-chunk fuel m type payload (chunk_bytes type payload ++ rest) rest s next
      (omega (arith, l, length-append (chunk_bytes type payload) rest))
      (split_chunk-chunk_bytes (m * 4) s.chunk_count type payload rest t h b c) a
      (drop-append (12 + length payload) (chunk_bytes type payload) rest l)
