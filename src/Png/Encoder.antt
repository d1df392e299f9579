-- ===== src/Png/Encoder.antt =====
-- packages/core/src/png-encoder.ts. Its 32-bit numbers are taken as unsigned.
use robloxstudio_mcp.Bytes.{bit_xor, Bytes, take, drop}
use robloxstudio_mcp.Shared.{
  ℕ, zero, suc, ◌*◌, ◌/◌, ◌%◌, ◌^◌, [], ◌∷◌, ◌++◌, ◌||◌, ◌==◌, length, ltb, if◌then◌else◌, Result,
  ok, ◌>>=◌, ◌>>◌, throw_if,
}
use robloxstudio_mcp.Png.{
  PngError, invalid_dimensions, buffer_too_small, Zlib, png_signature, write_u32,
}
use robloxstudio_mcp.Png.Chunks.{ihdr, idat, iend}

unfoldable pub crc_step : ℕ → ℕ
unfolding bit_xor
crc_step c = if c % 2 == 1 then bit_xor 32 3988292384 (c / 2) else c / 2

-- An entry of `CRC_TABLE`: eight rounds from its index.
unfoldable pub crc_rounds : ℕ → ℕ → ℕ
crc_rounds zero c = c
crc_rounds (suc rounds) c = crc_rounds rounds (crc_step c)

unfoldable pub crc_loop : Bytes → ℕ → ℕ
crc_loop [] crc = crc
crc_loop (b ∷ rest) crc =
    crc_loop rest (bit_xor 32 (crc_rounds 8 (bit_xor 32 crc b % 256)) (crc / 256))

unfoldable pub crc32 : Bytes → ℕ
crc32 buf = bit_xor 32 (crc_loop buf 4294967295) 4294967295 % 2 ^ 32

unfoldable pub write_chunk : Bytes → Bytes → Result PngError Bytes
write_chunk type payload = do
  size ← write_u32 (length payload)
  checksum ← write_u32 (crc32 (type ++ payload))
  ok (size ++ (type ++ (payload ++ checksum)))

-- The loop that puts a filter byte 0 before each row.
unfoldable pub filter_rows : ℕ → ℕ → Bytes → Bytes
filter_rows zero stride rgba = []
filter_rows (suc height) stride rgba =
    0 ∷ (take stride rgba ++ filter_rows height stride (drop stride rgba))

unfoldable pub rgba_to_png : Zlib → Bytes → ℕ → ℕ → Result PngError Bytes
rgba_to_png z rgba width height = do
  throw_if (width == 0 || height == 0) invalid_dimensions
  throw_if (ltb (length rgba) (width * height * 4)) buffer_too_small
  w ← write_u32 width
  h ← write_u32 height
  head ← write_chunk ihdr (w ++ (h ++ (8 ∷ 6 ∷ 0 ∷ 0 ∷ 0 ∷ [])))
  body ← write_chunk idat (z.deflate (filter_rows height (width * 4) rgba))
  tail ← write_chunk iend []
  ok (png_signature ++ (head ++ (body ++ tail)))
