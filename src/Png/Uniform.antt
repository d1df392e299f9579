-- ===== src/Png/Uniform.antt =====
-- `isUniformPng` against the image that `decodeScreenshotPngToRgba` gives.
use robloxstudio_mcp.Bytes.{Bytes, take, drop, length-take}
use robloxstudio_mcp.Shared.{
  ℕ, zero, suc, ◌+◌, ◌*◌, ◌≤◌, ◌≡◌, refl, Bool, false, none, some, [], ◌∷◌, ◌++◌, ◌==◌, not, length,
  if◌then◌else◌, arith, ok, Result-cases, ◌>>=◌, ap, ◌∙◌, inl, inr, Bool-cases, append_assoc,
}
use robloxstudio_mcp.Png.{
  max_screenshot_png_pixels, Zlib, DecodedRgbaImage, byte_at, bytes_per_pixel,
}
use robloxstudio_mcp.Png.Rows.{
  unfilter_row, convert_pixel, convert_pixels, convert_row, convert_rows,
}
use robloxstudio_mcp.Png.Chunks.{
  InflatedPng, inflate_png, is_grayscale, is_uniform, is_uniform_png, convert_scanlines_to_rgba,
  decoded, decode_screenshot,
}
use robloxstudio_mcp.Png.Colors.{
  all_pixels, length-unfilter_row, rgba_color, other_color, uniform-convert_rows,
}
use robloxstudio_mcp.Png.Bounds.{IsAccepted, inflate_png-IsAccepted, rows_below}

unfoldable pub has_one_color : DecodedRgbaImage → Bool
has_one_color image =
    all_pixels (image.width * image.height) (byte_at image.rgba 0) (byte_at image.rgba 1)
      (byte_at image.rgba 2) image.rgba

abbrev FirstColor : ℕ → Bytes → Bytes → Type 0
FirstColor color_type row rgba =
    (byte_at rgba 0 ≡ byte_at row 0)
    × (byte_at rgba 1 ≡ (if is_grayscale color_type then byte_at row 0 else byte_at row 1))
    × (byte_at rgba 2 ≡ (if is_grayscale color_type then byte_at row 0 else byte_at row 2))

convert_pixel-FirstColor :
    (color_type : ℕ) (row rest : Bytes)
    → is_grayscale color_type ≡ not (color_type == 2)
    → FirstColor color_type row (convert_pixel color_type row ++ rest)
unfolding convert_pixel byte_at
convert_pixel-FirstColor color_type row rest g = elim (Bool-cases (color_type == 2)) [
  | inl e ↦ rw (g, e) (refl, refl, refl)
  | inr e ↦ rw (g, e) (refl, refl, refl)
]

rgba-FirstColor :
    (color_type : ℕ) (row rest : Bytes)
    → is_grayscale color_type ≡ false
    → 4 ≤ length row
    → FirstColor color_type row (row ++ rest)
unfolding byte_at
rgba-FirstColor color_type (a ∷ b ∷ c ∷ row) rest g l = rw (g) (refl, refl, refl)
rgba-FirstColor color_type [] rest g l = absurd (omega arith)
rgba-FirstColor color_type (a ∷ []) rest g l = absurd (omega arith)
rgba-FirstColor color_type (a ∷ b ∷ []) rest g l = absurd (omega arith)

convert_row-FirstColor :
    (color_type bpp width : ℕ) (row rest : Bytes)
    → bytes_per_pixel color_type ≡ ok bpp
    → 1 ≤ width
    → length row ≡ width * bpp
    → FirstColor color_type row (convert_row width color_type bpp row ++ rest)
unfolding convert_row convert_pixels
convert_row-FirstColor color_type bpp zero row rest c p l = absurd (omega arith)
convert_row-FirstColor color_type bpp (suc width) row rest c p l =
    elim (Bool-cases (color_type == 6)) [
      | inl six ↦
          let (four, color) = rgba_color color_type bpp c six in
          let l4 : length row ≡ suc width * 4 = l ∙ ap (λ k. suc width * k) four in
          rw (six) (rgba-FirstColor color_type row rest color (omega arith))
      | inr other ↦
          rw
            (
              other,
              append_assoc (convert_pixel color_type row)
                  (convert_pixels color_type bpp width (drop bpp row)) rest,
            )
            (convert_pixel-FirstColor color_type row
              (convert_pixels color_type bpp width (drop bpp row) ++ rest)
              (other_color color_type bpp c other))
    ]

convert_rows-FirstColor :
    (fuel color_type bpp width : ℕ) (raw : Bytes)
    → bytes_per_pixel color_type ≡ ok bpp
    → 1 ≤ width
    → 1 ≤ width * bpp
    → width * bpp + 1 ≤ length raw
    → 1 ≤ fuel
    → FirstColor color_type
        (unfilter_row (byte_at raw 0) bpp none (take (width * bpp) (drop 1 raw)))
        (convert_rows fuel width color_type bpp none raw)
unfolding convert_rows byte_at drop
convert_rows-FirstColor zero color_type bpp width raw c w p l f = absurd (omega arith)
convert_rows-FirstColor (suc fuel) color_type bpp width [] c w p l f = absurd (omega arith)
convert_rows-FirstColor (suc fuel) color_type bpp width (x ∷ []) c w p l f = absurd (omega arith)
convert_rows-FirstColor (suc fuel) color_type bpp width (x ∷ y ∷ raw) c w p l f =
    let row : Bytes = unfilter_row x bpp none (take (width * bpp) (y ∷ raw)) in
    convert_row-FirstColor color_type bpp width row
      (convert_rows fuel width color_type bpp (some row) (drop (width * bpp) (y ∷ raw))) c w
      (length-unfilter_row x bpp none (take (width * bpp) (y ∷ raw))
        ∙ length-take (width * bpp) (y ∷ raw) (omega arith))

bpp_positive : (color_type bpp : ℕ) → bytes_per_pixel color_type ≡ ok bpp → 1 ≤ bpp
unfolding bytes_per_pixel
bpp_positive color_type bpp c = ground arith

product_positive : (a b : ℕ) → 1 ≤ a → 1 ≤ b → 1 ≤ a * b
product_positive zero b p q = absurd (omega arith)
product_positive (suc a) b p q = omega arith

one_row : (h s n : ℕ) → 1 ≤ h → n ≡ h * (s + 1) → s + 1 ≤ n
one_row zero s n p e = absurd (omega arith)
one_row (suc h) s n p e = omega arith

is_uniform-has_one_color :
    (m : ℕ) (png : InflatedPng) → IsAccepted m png → is_uniform png ≡ has_one_color (decoded png)
unfolding is_uniform has_one_color convert_scanlines_to_rgba
is_uniform-has_one_color m png v =
    let first : Bytes =
      unfilter_row (byte_at png.raw 0) png.bpp none (take (png.width * png.bpp) (drop 1 png.raw)) in
    let gray : Bool = is_grayscale png.color_type in
    let red : ℕ = byte_at first 0 in
    let p : 1 ≤ png.width * png.bpp =
      product_positive png.width png.bpp v.wide.0 (bpp_positive png.color_type png.bpp v.color) in
    let l : png.width * png.bpp + 1 ≤ length png.raw =
      one_row png.height (png.width * png.bpp) (length png.raw) v.high.0 v.whole in
    let f =
      convert_rows-FirstColor (length png.raw) png.color_type png.bpp png.width png.raw v.color
        v.wide.0 p l (omega (arith, l)) in
    rw (f.0, f.1, f.2)
      (uniform-convert_rows (length png.raw) png.color_type red
        (if gray then red else byte_at first 1) (if gray then red else byte_at first 2) png.bpp
        png.width png.height (png.width * png.height) none png.raw v.color
        (λ e. rw (e) (refl, refl)) v.whole p
        (rows_below png.height (png.width * png.bpp) (length png.raw) v.whole) (omega arith))

-- On every input, isUniformPng throws what the screenshot decoder throws, and otherwise tells
-- whether all pixels of the decoded image have the red, green and blue of its first one.
pub is_uniform_png-decode_screenshot :
    (z : Zlib) (file : Bytes)
    → is_uniform_png z file ≡ (decode_screenshot z file >>= λ image. ok (has_one_color image))
unfolding is_uniform_png decode_screenshot
is_uniform_png-decode_screenshot z file =
    elim (Result-cases (inflate_png z file max_screenshot_png_pixels)) [
      | inl (png, e) ↦ rw (e) (
          ap ok (
            is_uniform-has_one_color max_screenshot_png_pixels png
              (inflate_png-IsAccepted z file max_screenshot_png_pixels png e)))
      | inr (x, e) ↦ rw (e)
    ]
