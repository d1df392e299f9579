-- ===== src/Png/Chunks.antt =====
-- `inflatePng`, `isUniformPng` and `decodeScreenshotPngToRgba` of
-- packages/core/src/image-decode.ts.
use robloxstudio_mcp.Bytes.{Bytes, take, drop, same}
use robloxstudio_mcp.Shared.{
  ℕ, zero, suc, ◌+◌, ◌-◌, ◌*◌, ◌%◌, Bool, true, false, Option, none, some, List, [], ◌∷◌, ◌++◌, map,
  ◌&&◌, ◌||◌, ◌==◌, not, length, ltb, is_some, if◌then◌else◌, Result, ok, err, ◌>>=◌, ◌>>◌,
  throw_if,
}
use robloxstudio_mcp.Png.{
  PngError, unsupported_filter, not_a_png, truncated_header, chunk_too_large, too_many_chunks,
  chunk_overruns, ihdr_not_first, ihdr_repeated, ihdr_length, unsupported_method, interlaced,
  unsupported_depth, data_too_large, iend_not_empty, missing_ihdr, missing_iend, missing_data,
  inflated_too_large, corrupt_data, ended_early, Inflated, inflated, too_large, corrupt, Zlib,
  DecodedRgbaImage, png_signature, max_screenshot_png_pixels, max_png_chunks, byte_at, read_u32,
  bytes_per_pixel, validate_input_size, validate_source_dimensions, expected_scanline_length,
}
use robloxstudio_mcp.Png.Rows.{convert_rows, unfilter_row, uniform_rows}

-- The variables that an IHDR chunk sets; `sawIhdr` is that there are some.
pub record Header : Type 0 where
  pub width : ℕ
  pub height : ℕ
  pub color_type : ℕ
  pub bpp : ℕ
  pub expected : ℕ

-- The chunks' variables that the loop changes; `chunks` are the IDAT chunks, in order.
pub record Scan : Type 0 where
  pub header : Option Header
  pub chunk_count : ℕ
  pub idat_length : ℕ
  pub chunks : List Bytes
  pub saw_iend : Bool

pub record InflatedPng : Type 0 where
  pub width : ℕ
  pub height : ℕ
  pub color_type : ℕ
  pub bpp : ℕ
  pub raw : Bytes

-- `toString('ascii')`, which drops each byte's highest bit.
abbrev pub ascii : Bytes → Bytes
ascii = map (λ b. b % 128)

abbrev pub ihdr : Bytes
ihdr = 73 ∷ 72 ∷ 68 ∷ 82 ∷ []

abbrev pub idat : Bytes
idat = 73 ∷ 68 ∷ 65 ∷ 84 ∷ []

abbrev pub iend : Bytes
iend = 73 ∷ 69 ∷ 78 ∷ 68 ∷ []

unfoldable pub read_header : ℕ → Bytes → Result PngError Header
read_header max_pixels chunk = do
  throw_if (not (byte_at chunk 10 == 0) || not (byte_at chunk 11 == 0)) unsupported_method
  throw_if (not (byte_at chunk 8 == 8)) (unsupported_depth (byte_at chunk 8))
  throw_if (not (byte_at chunk 12 == 0)) interlaced
  bpp ← bytes_per_pixel (byte_at chunk 9)
  validate_source_dimensions (read_u32 chunk) (read_u32 (drop 4 chunk)) max_pixels
  expected ← expected_scanline_length (read_u32 chunk) (read_u32 (drop 4 chunk)) bpp max_pixels
  ok (record {
    width = read_u32 chunk;
    height = read_u32 (drop 4 chunk);
    color_type = byte_at chunk 9;
    bpp = bpp;
    expected = expected;
  })

-- The checks of one chunk at the start of `rest`, which is not empty: its type and its data.
unfoldable pub split_chunk : ℕ → ℕ → Bytes → Result PngError (Bytes × Bytes)
split_chunk max_input_bytes chunk_count rest = do
  throw_if (ltb (length rest) 12) truncated_header
  throw_if (ltb max_input_bytes (read_u32 rest)) chunk_too_large
  throw_if (ltb max_png_chunks (chunk_count + 1)) too_many_chunks
  throw_if (ltb (length rest - 12) (read_u32 rest)) chunk_overruns
  ok (ascii (take 4 (drop 4 rest)), take (read_u32 rest) (drop 8 rest))

unfoldable pub accept_ihdr : ℕ → Bytes → Scan → Result PngError Scan
accept_ihdr max_pixels chunk s = do
  throw_if (is_some s.header) ihdr_repeated
  throw_if (not (length chunk == 13)) ihdr_length
  header ← read_header max_pixels chunk
  ok (record s { header = some header })

unfoldable pub accept_idat : ℕ → Bytes → Scan → Result PngError Scan
accept_idat max_pixels chunk s =
    if ltb (max_pixels * 4 - s.idat_length) (length chunk)
    then err data_too_large
    else ok
        (record s { idat_length = s.idat_length + length chunk; chunks = s.chunks ++ chunk ∷ [] })

unfoldable pub accept_iend : Bytes → Scan → Result PngError Scan
accept_iend chunk s =
    if length chunk == 0 then ok (record s { saw_iend = true }) else err iend_not_empty

-- What the loop does with a chunk; other types are passed over.
unfoldable pub accept_chunk : ℕ → Bytes → Bytes → Scan → Result PngError Scan
accept_chunk max_pixels type chunk s =
    if not (is_some s.header) && not (same type ihdr)
    then err ihdr_not_first
    else if same type ihdr
    then accept_ihdr max_pixels chunk s
    else if same type idat
    then accept_idat max_pixels chunk s
    else if same type iend
    then accept_iend chunk s
    else ok s

-- The loop over the chunks, on fuel, from what is left of the file.
unfoldable pub scan_chunks : ℕ → ℕ → Bytes → Scan → Result PngError Scan
scan_chunks zero max_pixels rest s = ok s
scan_chunks (suc fuel) max_pixels [] s = ok s
scan_chunks (suc fuel) max_pixels (b ∷ rest) s = do
  (type, chunk) ← split_chunk (max_pixels * 4) s.chunk_count (b ∷ rest)
  next ← accept_chunk max_pixels type chunk (record s { chunk_count = s.chunk_count + 1 })
  if next.saw_iend
      then ok next
      else scan_chunks fuel max_pixels (drop (12 + length chunk) (b ∷ rest)) next

-- `Buffer.concat`; of one chunk it is the chunk.
unfoldable pub join : List Bytes → Bytes
join [] = []
join (c ∷ cs) = c ++ join cs

-- The loop over the rows' filter types, on fuel.
unfoldable pub validate_filters : ℕ → ℕ → Bytes → Result PngError (Unit {0})
validate_filters zero row_length raw = ok tt
validate_filters (suc fuel) row_length [] = ok tt
validate_filters (suc fuel) row_length (filter ∷ rest) = do
  throw_if (ltb 4 filter) (unsupported_filter filter)
  validate_filters fuel row_length (drop row_length (filter ∷ rest))

abbrev pub no_chunks : Scan
no_chunks = record {
  header = none;
  chunk_count = 0;
  idat_length = 0;
  chunks = [];
  saw_iend = false;
}

abbrev pub header_of : Option Header → Result PngError Header
header_of none = err missing_ihdr
header_of (some h) = ok h

abbrev pub inflated_of : Inflated → Result PngError Bytes
inflated_of (inflated raw) = ok raw
inflated_of too_large = err inflated_too_large
inflated_of corrupt = err corrupt_data

abbrev pub is_empty : List Bytes → Bool
is_empty [] = true
is_empty (c ∷ cs) = false

-- After the loop: the compressed data inflated and checked.
unfoldable pub inflate_scan : Zlib → Scan → Result PngError InflatedPng
inflate_scan z s = do
  header ← header_of s.header
  throw_if (not s.saw_iend) missing_iend
  throw_if (is_empty s.chunks) missing_data
  raw ← inflated_of (z.inflate (join s.chunks) header.expected)
  throw_if (not (length raw == header.expected)) ended_early
  validate_filters (length raw) (header.width * header.bpp + 1) raw
  ok (record {
    width = header.width;
    height = header.height;
    color_type = header.color_type;
    bpp = header.bpp;
    raw = raw;
  })

unfoldable pub inflate_png : Zlib → Bytes → ℕ → Result PngError InflatedPng
inflate_png z file max_pixels = do
  validate_input_size (length file) (max_pixels * 4)
  throw_if (ltb (length file) 8 || not (same (take 8 file) png_signature)) not_a_png
  scan ← scan_chunks (length file) max_pixels (drop 8 file) no_chunks
  inflate_scan z scan

unfoldable pub is_grayscale : ℕ → Bool
is_grayscale color_type = color_type == 0 || color_type == 4

unfoldable pub is_uniform : InflatedPng → Bool
is_uniform png =
    let first =
      unfilter_row (byte_at png.raw 0) png.bpp none (take (png.width * png.bpp) (drop 1 png.raw)) in
    let red = byte_at first 0 in
    let green = if is_grayscale png.color_type then red else byte_at first 1 in
    let blue = if is_grayscale png.color_type then red else byte_at first 2 in
    uniform_rows (length png.raw) (is_grayscale png.color_type) red green blue png.width png.bpp
      none png.raw

unfoldable pub is_uniform_png : Zlib → Bytes → Result PngError Bool
is_uniform_png z file = do png ← inflate_png z file max_screenshot_png_pixels; ok (is_uniform png)

unfoldable pub convert_scanlines_to_rgba : InflatedPng → Bytes
convert_scanlines_to_rgba png =
    convert_rows (length png.raw) png.width png.color_type png.bpp none png.raw

abbrev pub decoded : InflatedPng → DecodedRgbaImage
decoded png = record {
  width = png.width;
  height = png.height;
  rgba = convert_scanlines_to_rgba png;
}

unfoldable pub decode_screenshot : Zlib → Bytes → Result PngError DecodedRgbaImage
decode_screenshot z file = do png ← inflate_png z file max_screenshot_png_pixels; ok (decoded png)
