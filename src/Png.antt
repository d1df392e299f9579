-- ===== src/Png.antt =====
-- PNG images: the limits, errors and header of packages/core/src/image-decode.ts.
-- `PngError` holds which error is thrown; the inflater and the deflater of Node's zlib are a
-- parameter.
pub mod Rows
pub mod RoundTrip
pub mod Scanlines
pub mod Written
pub mod Colors
pub mod Uniform
pub mod Base64
pub mod Bounds
pub mod Filters
pub mod Chunks
pub mod Encoder
use robloxstudio_mcp.Bytes.{Bytes}
use robloxstudio_mcp.Shared.{
  ℕ, ◌+◌, ◌-◌, ◌*◌, ◌/◌, ◌%◌, ◌≤◌, ◌≡◌, Bool, List, [], ◌∷◌, ◌||◌, ◌==◌, length, ltb, if◌then◌else◌,
  Result, ok, err, ◌>>=◌, ◌>>◌, throw_if,
}

pub data PngError : Type 0 where
  unsupported_color : ℕ → PngError
  input_too_large not_a_png truncated_header : PngError
  chunk_too_large too_many_chunks chunk_overruns : PngError
  ihdr_not_first ihdr_repeated ihdr_length : PngError
  dimensions_not_positive dimension_too_large too_many_pixels scanlines_too_large : PngError
  unsupported_method interlaced : PngError
  unsupported_depth unsupported_filter : ℕ → PngError
  data_too_large iend_not_empty missing_ihdr missing_iend missing_data : PngError
  inflated_too_large corrupt_data ended_early : PngError
  base64_too_long invalid_base64 : PngError
  invalid_dimensions buffer_too_small out_of_range : PngError

-- What `inflateSync` with `maxOutputLength` does: return, or throw with the code
-- ERR_BUFFER_TOO_LARGE or another.
pub data Inflated : Type 0 where
  inflated : Bytes → Inflated
  too_large corrupt : Inflated

pub record Zlib : Type 0 where
  pub deflate : Bytes → Bytes
  pub inflate : Bytes → ℕ → Inflated

-- zlib's documentation: what was deflated inflates to itself where the output may be as long.
abbrev pub Inverts : Zlib → Type 0
Inverts z =
    (plain : Bytes) (limit : ℕ)
    → length plain ≤ limit
    → z.inflate (z.deflate plain) limit ≡ inflated plain

pub record DecodedRgbaImage : Type 0 where
  pub width : ℕ
  pub height : ℕ
  pub rgba : Bytes

abbrev pub png_signature : Bytes
png_signature = 137 ∷ 80 ∷ 78 ∷ 71 ∷ 13 ∷ 10 ∷ 26 ∷ 10 ∷ []

abbrev pub max_png_dimension : ℕ
max_png_dimension = 16384

abbrev pub max_screenshot_png_pixels : ℕ
max_screenshot_png_pixels = 33554432

abbrev pub max_png_chunks : ℕ
max_png_chunks = 65536

-- `buffer[i]` of an index within the buffer.
unfoldable pub byte_at : Bytes → ℕ → ℕ
byte_at [] i = 0
byte_at (b ∷ s) i = if i == 0 then b else byte_at s (i - 1)

-- `readUInt32BE(0)` of a buffer that has the four bytes.
unfoldable pub read_u32 : Bytes → ℕ
unfolding byte_at
read_u32 s = byte_at s 0 * 16777216 + byte_at s 1 * 65536 + byte_at s 2 * 256 + byte_at s 3

-- `writeUInt32BE`, which throws on numbers that do not fit.
unfoldable pub write_u32 : ℕ → Result PngError Bytes
write_u32 n =
    if ltb 4294967295 n
    then err out_of_range
    else ok ((n / 16777216) ∷ (n / 65536 % 256) ∷ (n / 256 % 256) ∷ (n % 256) ∷ [])

unfoldable pub bytes_per_pixel : ℕ → Result PngError ℕ
bytes_per_pixel color_type =
    if color_type == 6
    then ok 4
    else if color_type == 2
    then ok 3
    else if color_type == 0
    then ok 1
    else if color_type == 4
    then ok 2
    else err (unsupported_color color_type)

-- A buffer's length is a safe integer.
unfoldable pub validate_input_size : ℕ → ℕ → Result PngError (Unit {0})
validate_input_size byte_length max_input_bytes =
    throw_if (ltb max_input_bytes byte_length) input_too_large

-- Dimensions up to the limit have a pixel count that is a safe integer.
unfoldable pub validate_source_dimensions : ℕ → ℕ → ℕ → Result PngError (Unit {0})
validate_source_dimensions width height max_pixels = do
  throw_if (width == 0 || height == 0) dimensions_not_positive
  throw_if (ltb max_png_dimension width || ltb max_png_dimension height) dimension_too_large
  throw_if (ltb max_pixels (width * height)) too_many_pixels

unfoldable pub expected_scanline_length : ℕ → ℕ → ℕ → ℕ → Result PngError ℕ
expected_scanline_length width height bpp max_pixels =
    let max_inflated_bytes = max_pixels * 4 + max_png_dimension in
    let expected = height * (width * bpp + 1) in
    if ltb max_inflated_bytes expected then err scanlines_too_large else ok expected
