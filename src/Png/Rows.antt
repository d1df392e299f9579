-- ===== src/Png/Rows.antt =====
-- Scanlines: `paethPredictor`, `unfilterPngRow` and `convertScanlinesToRgba` of
-- packages/core/src/image-decode.ts. The code reconstructs a row in place; here a row that is
-- reconstructed is handed on to the one below it.
use robloxstudio_mcp.Bytes.{Bytes, take, drop}
use robloxstudio_mcp.Shared.{
  ℕ, zero, suc, ◌+◌, ◌-◌, ◌*◌, ◌/◌, ◌%◌, Bool, true, Option, none, some, [], ◌∷◌, ◌++◌, ◌&&◌, ◌==◌,
  length, leb, if◌then◌else◌,
}
use robloxstudio_mcp.Png.{byte_at}

-- `Math.abs(x - y)`.
abbrev pub distance : ℕ → ℕ → ℕ
distance x y = (x - y) + (y - x)

-- With p = a + b - c, which may be negative: |p - a| = |b - c|, |p - b| = |a - c| and
-- |p - c| = |a + b - 2 * c|.
unfoldable pub paeth_predictor : ℕ → ℕ → ℕ → ℕ
paeth_predictor a b c =
    let pa = distance b c in
    let pb = distance a c in
    let pc = distance (a + b) (c + c) in
    if leb pa pb && leb pa pc then a else if leb pb pc then b else c

unfoldable pub predictor : ℕ → ℕ → ℕ → ℕ → ℕ
predictor filter left up up_left =
    if filter == 1
    then left
    else if filter == 2
    then up
    else if filter == 3
    then (left + up) / 2
    else paeth_predictor left up up_left

-- The byte above, where there is a row above.
unfoldable pub above : Option Bytes → ℕ → ℕ
above none x = 0
above (some previous) x = byte_at previous x

-- The predictor at the byte after those of `done`, which are reconstructed.
unfoldable pub predicted : ℕ → ℕ → Option Bytes → Bytes → ℕ
predicted filter bpp previous done =
    let x = length done in
    let left = if leb bpp x then byte_at done (x - bpp) else 0 in
    let up = above previous x in
    let up_left = if leb bpp x then above previous (x - bpp) else 0 in
    predictor filter left up up_left

-- The loop of `unfilterPngRow`, from the bytes that are reconstructed and those that are left.
unfoldable pub unfilter_bytes : ℕ → ℕ → Option Bytes → Bytes → Bytes → Bytes
unfilter_bytes filter bpp previous done [] = done
unfilter_bytes filter bpp previous done (b ∷ rest) =
    unfilter_bytes filter bpp previous
      (done ++ ((b + predicted filter bpp previous done) % 256) ∷ []) rest

unfoldable pub unfilter_row : ℕ → ℕ → Option Bytes → Bytes → Bytes
unfilter_row filter bpp previous row =
    if filter == 0 then row else unfilter_bytes filter bpp previous [] row

-- The four bytes that are written for one pixel which is not RGBA already.
unfoldable pub convert_pixel : ℕ → Bytes → Bytes
convert_pixel color_type pixel =
    let gray = byte_at pixel 0 in
    if color_type == 2
    then byte_at pixel 0 ∷ byte_at pixel 1 ∷ byte_at pixel 2 ∷ 255 ∷ []
    else gray ∷ gray ∷ gray ∷ (if color_type == 4 then byte_at pixel 1 else 255) ∷ []

-- The loop over the pixels of a row, as many as the image is wide.
unfoldable pub convert_pixels : ℕ → ℕ → ℕ → Bytes → Bytes
convert_pixels color_type bpp zero row = []
convert_pixels color_type bpp (suc count) row =
    convert_pixel color_type row ++ convert_pixels color_type bpp count (drop bpp row)

unfoldable pub convert_row : ℕ → ℕ → ℕ → Bytes → Bytes
convert_row width color_type bpp row =
    if color_type == 6 then row else convert_pixels color_type bpp width row

-- The loop over the rows, on fuel: `raw` is what is left of the scanlines from a filter byte on.
unfoldable pub convert_rows : ℕ → ℕ → ℕ → ℕ → Option Bytes → Bytes → Bytes
convert_rows zero width color_type bpp previous raw = []
convert_rows (suc fuel) width color_type bpp previous [] = []
convert_rows (suc fuel) width color_type bpp previous (filter ∷ []) = []
convert_rows (suc fuel) width color_type bpp previous (filter ∷ b ∷ rest) =
    let row = unfilter_row filter bpp previous (take (width * bpp) (b ∷ rest)) in
    convert_row width color_type bpp row
    ++ convert_rows fuel width color_type bpp (some row) (drop (width * bpp) (b ∷ rest))

-- One pixel of `isUniformPng`: is it the first one's colour?
unfoldable pub is_color : Bool → ℕ → ℕ → ℕ → Bytes → Bool
is_color grayscale red green blue pixel =
    (byte_at pixel 0 == red)
    && (if grayscale then true else (byte_at pixel 1 == green) && (byte_at pixel 2 == blue))

unfoldable pub uniform_pixels : Bool → ℕ → ℕ → ℕ → ℕ → ℕ → Bytes → Bool
uniform_pixels grayscale red green blue bpp zero row = true
uniform_pixels grayscale red green blue bpp (suc count) row =
    is_color grayscale red green blue row
    && uniform_pixels grayscale red green blue bpp count (drop bpp row)

-- The loop of `isUniformPng` over the rows, on fuel, as in `convert_rows`.
unfoldable pub uniform_rows : ℕ → Bool → ℕ → ℕ → ℕ → ℕ → ℕ → Option Bytes → Bytes → Bool
uniform_rows zero grayscale red green blue width bpp previous raw = true
uniform_rows (suc fuel) grayscale red green blue width bpp previous [] = true
uniform_rows (suc fuel) grayscale red green blue width bpp previous (filter ∷ []) = true
uniform_rows (suc fuel) grayscale red green blue width bpp previous (filter ∷ b ∷ rest) =
    let row = unfilter_row filter bpp previous (take (width * bpp) (b ∷ rest)) in
    uniform_pixels grayscale red green blue bpp width row
    && uniform_rows fuel grayscale red green blue width bpp (some row)
        (drop (width * bpp) (b ∷ rest))
