-- ===== src/Tests/Images.antt =====
-- Examples: PNG images.
use robloxstudio_mcp.Bytes.{bit_xor, Bytes, take, drop, same}
use robloxstudio_mcp.Shared.{
  ◌++◌, ◌≡◌, refl, true, none, inl, inr, List, [], ◌∷◌, length, leb, if◌then◌else◌, arith, ok,
  ◌>>=◌,
}
use robloxstudio_mcp.Png.{
  byte_at, read_u32, bytes_per_pixel, validate_input_size, validate_source_dimensions,
  expected_scanline_length, Zlib, inflated, too_large,
}
use robloxstudio_mcp.Png.Rows.{
  paeth_predictor, predictor, above, predicted, unfilter_bytes, unfilter_row, convert_rows,
  is_color, uniform_pixels, uniform_rows,
}
use robloxstudio_mcp.Png.Filters.{
  FilterType, sub, paeth, IsPaeth, IsFilteredImage, paeth_predictor-IsPaeth, rows_converted,
  convert_rows-IsFilteredImage,
}
use robloxstudio_mcp.Png.Chunks.{
  InflatedPng, read_header, split_chunk, accept_ihdr, accept_idat, accept_iend, accept_chunk,
  scan_chunks, join, validate_filters, inflate_scan, inflate_png, is_grayscale, is_uniform,
  is_uniform_png, decode_screenshot,
}
use robloxstudio_mcp.Png.Base64.{
  base64_decoded_length, pads, all_base64, is_base64, base64_decoded_length-pads,
}
use robloxstudio_mcp.Png.Bounds.{IsSound, inflate_png-IsSound}
use robloxstudio_mcp.Png.Uniform.{has_one_color, is_uniform_png-decode_screenshot}
use robloxstudio_mcp.Png.Encoder.{crc_step, crc_rounds, crc_loop, crc32, filter_rows, rgba_to_png}
use robloxstudio_mcp.Png.RoundTrip.{decode_screenshot-rgba_to_png}

-- A zlib that stores its input.
abbrev stored : Zlib
stored = record {
  deflate = λ plain. plain;
  inflate = λ packed limit. if leb (length packed) limit then inflated packed else too_large;
}

iend_crc : crc32 (73 ∷ 69 ∷ 78 ∷ 68 ∷ []) ≡ 2923585666
unfolding crc32 crc_loop crc_rounds crc_step bit_xor
iend_crc = refl

paeth_predictor-IsPaeth_example : IsPaeth 10 20 11 (paeth_predictor 10 20 11)
paeth_predictor-IsPaeth_example = paeth_predictor-IsPaeth 10 20 11

-- Two rows of two gray pixels, the first with the filter Sub and the second with Paeth.
abbrev gray_rows : List (FilterType × Bytes)
gray_rows = (sub, 200 ∷ 10 ∷ []) ∷ (paeth, 7 ∷ 255 ∷ []) ∷ []

abbrev gray_scanlines : Bytes
gray_scanlines = 1 ∷ 200 ∷ 66 ∷ 4 ∷ 63 ∷ 248 ∷ []

gray_rows-IsFilteredImage : IsFilteredImage 2 1 none gray_rows gray_scanlines
unfolding byte_at
gray_rows-IsFilteredImage = (
  200 ∷ 66 ∷ [],
  4 ∷ 63 ∷ 248 ∷ [],
  refl,
  refl,
  (omega arith, (0, refl, refl), (omega arith, (200, refl, refl), tt)),
  (
    63 ∷ 248 ∷ [],
    [],
    refl,
    refl,
    (
      omega arith,
      (200, inr (inl (refl, omega arith, omega arith)), refl),
      (omega arith, (7, inl (refl, omega arith, omega arith), refl), tt),
    ),
    refl,
  ),
)

convert_rows-IsFilteredImage_example :
    convert_rows 2 2 0 1 none gray_scanlines ≡ rows_converted 2 0 1 gray_rows
convert_rows-IsFilteredImage_example =
    convert_rows-IsFilteredImage 2 2 0 1 none gray_rows gray_scanlines (omega arith)
      gray_rows-IsFilteredImage (omega arith)

-- A gray image of two equal pixels; the checksums are not read.
abbrev two_gray_pixels : Bytes
two_gray_pixels =
    137 ∷ 80 ∷ 78 ∷ 71 ∷ 13 ∷ 10 ∷ 26 ∷ 10 ∷ 0 ∷ 0 ∷ 0 ∷ 13 ∷ 73 ∷ 72 ∷ 68 ∷ 82 ∷ 0 ∷ 0 ∷ 0 ∷ 2 ∷ 0
    ∷ 0 ∷ 0 ∷ 1 ∷ 8 ∷ 0 ∷ 0 ∷ 0 ∷ 0 ∷ 0 ∷ 0 ∷ 0 ∷ 0 ∷ 0 ∷ 0 ∷ 0 ∷ 3 ∷ 73 ∷ 68 ∷ 65 ∷ 84 ∷ 1 ∷ 9 ∷ 0
    ∷ 0 ∷ 0 ∷ 0 ∷ 0 ∷ 0 ∷ 0 ∷ 0 ∷ 0 ∷ 73 ∷ 69 ∷ 78 ∷ 68 ∷ 0 ∷ 0 ∷ 0 ∷ 0 ∷ []

abbrev two_gray : InflatedPng
two_gray = record { width = 2; height = 1; color_type = 0; bpp = 1; raw = 1 ∷ 9 ∷ 0 ∷ [] }

two_gray_pixels_inflate : inflate_png stored two_gray_pixels 100 ≡ ok two_gray
unfolding inflate_png inflate_scan scan_chunks split_chunk accept_chunk accept_ihdr accept_idat
    accept_iend read_header read_u32 byte_at bytes_per_pixel validate_input_size
    validate_source_dimensions expected_scanline_length join validate_filters take drop same
two_gray_pixels_inflate = refl

inflate_png-IsSound_example : IsSound 100 two_gray
inflate_png-IsSound_example =
    inflate_png-IsSound stored two_gray_pixels 100 two_gray two_gray_pixels_inflate

two_gray_pixels_uniform : is_uniform two_gray ≡ true
unfolding is_uniform is_grayscale uniform_rows uniform_pixels is_color unfilter_row unfilter_bytes
    predicted predictor above byte_at take drop
two_gray_pixels_uniform = refl

is_uniform_png-decode_screenshot_example :
    is_uniform_png stored two_gray_pixels
    ≡ (decode_screenshot stored two_gray_pixels >>= λ image. ok (has_one_color image))
is_uniform_png-decode_screenshot_example = is_uniform_png-decode_screenshot stored two_gray_pixels

abbrev one_pixel : Bytes
one_pixel = 1 ∷ 2 ∷ 3 ∷ 255 ∷ []

decode_screenshot-rgba_to_png_example :
    (rgba_to_png stored one_pixel 1 1 >>= decode_screenshot stored)
    ≡ ok (record { width = 1; height = 1; rgba = take 4 one_pixel })
unfolding filter_rows take drop
decode_screenshot-rgba_to_png_example =
    decode_screenshot-rgba_to_png stored one_pixel 1 1 (λ plain limit h. ground arith)
      (omega arith, omega arith, omega arith, omega arith, omega arith) (omega arith) (omega arith)

-- The base64 text "aGk=" of two bytes.
base64_decoded_length-pads_example : base64_decoded_length ((97 ∷ 71 ∷ 107 ∷ []) ++ pads 2) ≡ ok 2
unfolding all_base64 is_base64
base64_decoded_length-pads_example =
    base64_decoded_length-pads 2 (97 ∷ 71 ∷ 107 ∷ []) refl (omega arith) (omega arith)
