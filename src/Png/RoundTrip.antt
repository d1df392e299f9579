-- ===== src/Png/RoundTrip.antt =====
-- `rgbaToPng` of packages/core/src/png-encoder.ts followed by `decodeScreenshotPngToRgba` of
-- packages/core/src/image-decode.ts.
use robloxstudio_mcp.Bytes.{Bytes, take, drop, take-append, drop-append, same}
use robloxstudio_mcp.Shared.{
  ℕ, zero, suc, ◌+◌, ◌-◌, ◌*◌, ◌≤◌, ◌<◌, ◌≡◌, refl, true, false, none, some, [], ◌∷◌, ◌++◌, ◌==◌,
  ==_iff, ◌||◌, length, length-append, ltb, arith, ok, ◌>>=◌, ap, sym, ◌∙◌, append-nil,
}
use robloxstudio_mcp.Png.{
  Zlib, Inverts, inflated, png_signature, byte_at, read_u32, bytes_per_pixel, validate_input_size,
  validate_source_dimensions, expected_scanline_length,
}
use robloxstudio_mcp.Png.Chunks.{
  Header, Scan, ihdr, idat, iend, read_header, accept_ihdr, accept_idat, accept_iend, accept_chunk,
  scan_chunks, join, no_chunks, inflate_scan, inflate_png, convert_scanlines_to_rgba, decoded,
  decode_screenshot,
}
use robloxstudio_mcp.Png.Written.{
  u32, chunk_bytes, length-u32, write_u32-u32, read_u32-u32, length-chunk_bytes,
  write_chunk-chunk_bytes, scan_chunks-chunk_bytes,
}
use robloxstudio_mcp.Png.Scanlines.{
  length-filter_rows, validate_filters-filter_rows, convert_rows-filter_rows,
}
use robloxstudio_mcp.Png.Encoder.{filter_rows, rgba_to_png}

-- The IHDR data that the encoder writes.
unfoldable ihdr_data : ℕ → ℕ → Bytes
ihdr_data width height = u32 width ++ (u32 height ++ (8 ∷ 6 ∷ 0 ∷ 0 ∷ 0 ∷ []))

length-ihdr_data : (width height : ℕ) → length (ihdr_data width height) ≡ 13
unfolding ihdr_data u32
length-ihdr_data width height = refl

-- The images that a screenshot may have.
abbrev pub Fits : ℕ → ℕ → Type 0
Fits width height =
    (1 ≤ width) × (width ≤ 16384) × (1 ≤ height) × (height ≤ 16384) × (width * height ≤ 33554432)

header_for : ℕ → ℕ → Header
header_for width height = record {
  width = width;
  height = height;
  color_type = 6;
  bpp = 4;
  expected = height * (width * 4 + 1);
}

read_header-ihdr_data :
    (width height : ℕ)
    → Fits width height
    → read_header 33554432 (ihdr_data width height) ≡ ok (header_for width height)
unfolding read_header header_for ihdr_data validate_source_dimensions expected_scanline_length
    bytes_per_pixel byte_at u32
read_header-ihdr_data width height f =
    let last : Bytes = 8 ∷ 6 ∷ 0 ∷ 0 ∷ 0 ∷ [] in
    let w : read_u32 (ihdr_data width height) ≡ width =
      read_u32-u32 width (u32 height ++ last) (omega arith) in
    let h : read_u32 (drop 4 (ihdr_data width height)) ≡ height =
      ap read_u32 (drop-append 4 (u32 width) (u32 height ++ last) (length-u32 width))
      ∙ read_u32-u32 height last (omega arith) in
    let positive : (width == 0 || height == 0) ≡ false = ground arith in
    let small : (ltb 16384 width || ltb 16384 height) ≡ false = ground arith in
    let few : ltb 33554432 (width * height) ≡ false = ground arith in
    let admitted : ltb 134234112 (height * (width * 4 + 1)) ≡ false = ground arith in
    rw (w, h, positive, small, few, admitted)

after_ihdr : ℕ → ℕ → Scan
after_ihdr width height = record {
  header = some (header_for width height);
  chunk_count = 1;
  idat_length = 0;
  chunks = [];
  saw_iend = false;
}

after_idat : ℕ → ℕ → Bytes → Scan
unfolding after_ihdr
after_idat width height body = record (after_ihdr width height) {
  chunk_count = 2;
  idat_length = 0 + length body;
  chunks = body ∷ [];
}

after_iend : ℕ → ℕ → Bytes → Scan
unfolding after_idat
after_iend width height body = record (after_idat width height body) {
  chunk_count = 3;
  saw_iend = true;
}

accept_chunk-ihdr :
    (width height : ℕ)
    → Fits width height
    → accept_chunk 33554432 ihdr (ihdr_data width height) (record no_chunks { chunk_count = 1 })
      ≡ ok (after_ihdr width height)
unfolding accept_chunk accept_ihdr same after_ihdr
accept_chunk-ihdr width height f =
    rw (length-ihdr_data width height, read_header-ihdr_data width height f)

accept_chunk-idat :
    (width height : ℕ) (body : Bytes)
    → length body ≤ 134217728
    → accept_chunk 33554432 idat body (record (after_ihdr width height) { chunk_count = 2 })
      ≡ ok (after_idat width height body)
unfolding accept_chunk accept_idat same after_ihdr after_idat
accept_chunk-idat width height body h =
    let small : ltb (134217728 - 0) (length body) ≡ false = ground arith in rw (small)

accept_chunk-iend :
    (width height : ℕ) (body : Bytes)
    → accept_chunk 33554432 iend [] (record (after_idat width height body) { chunk_count = 3 })
      ≡ ok (after_iend width height body)
unfolding accept_chunk accept_iend same after_ihdr after_idat after_iend
accept_chunk-iend width height body = refl

chunks_of : ℕ → ℕ → Bytes → Bytes
chunks_of width height body =
    chunk_bytes ihdr (ihdr_data width height) ++ (chunk_bytes idat body ++ chunk_bytes iend [])

scan_chunks-chunks_of :
    (fuel width height : ℕ) (body : Bytes)
    → Fits width height
    → length body ≤ 134217728
    → 3 ≤ fuel
    → scan_chunks fuel 33554432 (chunks_of width height body) no_chunks
      ≡ ok (after_iend width height body)
unfolding chunks_of after_ihdr after_idat after_iend
scan_chunks-chunks_of (suc (suc (suc fuel))) width height body f b l =
    scan_chunks-chunk_bytes (suc (suc fuel)) 33554432 ihdr (ihdr_data width height)
      (chunk_bytes idat body ++ chunk_bytes iend []) no_chunks (after_ihdr width height)
      (refl, refl) (omega (arith, length-ihdr_data width height)) (omega arith) (omega arith)
      (accept_chunk-ihdr width height f)
    ∙ scan_chunks-chunk_bytes (suc fuel) 33554432 idat body (chunk_bytes iend [])
        (after_ihdr width height) (after_idat width height body) (refl, refl) b (omega arith)
        (omega arith) (accept_chunk-idat width height body b)
    ∙ ap (λ t. scan_chunks (suc fuel) 33554432 t (after_idat width height body))
        (sym (append-nil (chunk_bytes iend [])))
    ∙ scan_chunks-chunk_bytes fuel 33554432 iend [] [] (after_idat width height body)
        (after_iend width height body) (refl, refl) (omega arith) (omega arith) (omega arith)
        (accept_chunk-iend width height body)
scan_chunks-chunks_of zero width height body f b l = absurd (omega arith)
scan_chunks-chunks_of (suc zero) width height body f b l = absurd (omega arith)
scan_chunks-chunks_of (suc (suc zero)) width height body f b l = absurd (omega arith)

inflate_scan-after_iend :
    (z : Zlib) (rgba : Bytes) (width height : ℕ)
    → Inverts z
    → Fits width height
    → width * height * 4 ≤ length rgba
    → (inflate_scan z (after_iend width height (z.deflate (filter_rows height (width * 4) rgba)))
        >>= λ png. ok (decoded png))
      ≡ ok (record { width = width; height = height; rgba = take (width * height * 4) rgba })
unfolding inflate_scan after_ihdr after_idat after_iend header_for join convert_scanlines_to_rgba
inflate_scan-after_iend z rgba width height i f l =
    let rows : Bytes = filter_rows height (width * 4) rgba in
    let long : height * (width * 4) ≤ length rgba = omega arith in
    let n : length rows ≡ height * (width * 4 + 1) =
      length-filter_rows height (width * 4) rgba long in
    let full : (length rows == height * (width * 4 + 1)) ≡ true =
      (==_iff (length rows) (height * (width * 4 + 1))).1 n in
    let whole : z.inflate (z.deflate rows) (height * (width * 4 + 1)) ≡ inflated rows =
      i rows (height * (width * 4 + 1)) (omega (arith, n)) in
    rw
      (
        append-nil (z.deflate rows),
        whole,
        full,
        validate_filters-filter_rows (length rows) height (width * 4) rgba long,
        convert_rows-filter_rows (length rows) width height none rgba f.0 long (omega (arith, n)),
      )
      (ap (λ k. ok (record { width = width; height = height; rgba = take k rgba })) (omega arith))

length-chunks_of :
    (width height : ℕ) (body : Bytes) → length (chunks_of width height body) ≡ length body + 49
unfolding chunks_of
length-chunks_of width height body = omega (
  arith,
  length-append (chunk_bytes ihdr (ihdr_data width height))
      (chunk_bytes idat body ++ chunk_bytes iend []),
  length-append (chunk_bytes idat body) (chunk_bytes iend []),
  length-chunk_bytes ihdr (ihdr_data width height) refl,
  length-chunk_bytes idat body refl,
  length-chunk_bytes iend [] refl,
  length-ihdr_data width height,
)

inflate_png-chunks_of :
    (z : Zlib) (width height : ℕ) (body : Bytes)
    → Fits width height
    → length body + 57 ≤ 134217728
    → inflate_png z (png_signature ++ chunks_of width height body) 33554432
      ≡ inflate_scan z (after_iend width height body)
unfolding inflate_png validate_input_size same
inflate_png-chunks_of z width height body f b =
    let file : Bytes = png_signature ++ chunks_of width height body in
    let l : length file ≡ length body + 57 =
      length-append png_signature (chunks_of width height body)
      ∙ omega (arith, length-chunks_of width height body) in
    let small : ltb 134217728 (length file) ≡ false = ground (arith, l) in
    let long : ltb (length file) 8 ≡ false = ground (arith, l) in
    rw (
      small,
      long,
      take-append 8 png_signature (chunks_of width height body) refl,
      drop-append 8 png_signature (chunks_of width height body) refl,
      scan_chunks-chunks_of (length file) width height body f (omega arith) (omega (arith, l)),
    )

rgba_to_png-chunks_of :
    (z : Zlib) (rgba : Bytes) (width height : ℕ)
    → Fits width height
    → width * height * 4 ≤ length rgba
    → length (z.deflate (filter_rows height (width * 4) rgba)) < 4294967296
    → rgba_to_png z rgba width height
      ≡ ok (
          png_signature ++ chunks_of width height (z.deflate (filter_rows height (width * 4) rgba)))
unfolding rgba_to_png chunks_of ihdr_data
rgba_to_png-chunks_of z rgba width height f l b =
    let positive : (width == 0 || height == 0) ≡ false = ground arith in
    let large : ltb (length rgba) (width * height * 4) ≡ false = ground arith in
    let body : Bytes = z.deflate (filter_rows height (width * 4) rgba) in
    rw (
      positive,
      large,
      write_u32-u32 width (omega arith),
      write_u32-u32 height (omega arith),
      write_chunk-chunk_bytes ihdr (ihdr_data width height)
          (omega (arith, length-ihdr_data width height)),
      write_chunk-chunk_bytes idat body b,
      write_chunk-chunk_bytes iend [] (omega arith),
    )

-- Where zlib inverts its own output, a screenshot within the decoder's limits (positive dimensions
-- of at most 16,384, at most 32 Mi pixels, a PNG of at most 128 MiB) is encoded without an error
-- and decoded to the same dimensions and the same pixels.
pub decode_screenshot-rgba_to_png :
    (z : Zlib) (rgba : Bytes) (width height : ℕ)
    → Inverts z
    → Fits width height
    → width * height * 4 ≤ length rgba
    → length (z.deflate (filter_rows height (width * 4) rgba)) + 57 ≤ 134217728
    → (rgba_to_png z rgba width height >>= decode_screenshot z)
      ≡ ok (record { width = width; height = height; rgba = take (width * height * 4) rgba })
unfolding decode_screenshot
decode_screenshot-rgba_to_png z rgba width height i f l b =
    let body : Bytes = z.deflate (filter_rows height (width * 4) rgba) in
    rw
      (
        rgba_to_png-chunks_of z rgba width height f l (omega arith),
        inflate_png-chunks_of z width height body f b,
      )
      (inflate_scan-after_iend z rgba width height i f l)
