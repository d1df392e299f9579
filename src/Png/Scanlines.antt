-- ===== src/Png/Scanlines.antt =====
-- The scanlines that `rgbaToPng` writes, in `inflatePng` and `convertScanlinesToRgba`.
use robloxstudio_mcp.Bytes.{
  Bytes, take, drop, take_zero, take_add, drop-append, length-take, length-drop,
}
use robloxstudio_mcp.Shared.{
  ℕ, zero, suc, ◌+◌, ◌*◌, ◌≤◌, ◌≡◌, refl, Option, some, ◌∷◌, ◌++◌, length, length-append, arith, ok,
  ap, sym, ◌∙◌,
}
use robloxstudio_mcp.Png.Rows.{unfilter_row, convert_row, convert_rows}
use robloxstudio_mcp.Png.Filters.{convert_rows-row}
use robloxstudio_mcp.Png.Chunks.{validate_filters}
use robloxstudio_mcp.Png.Encoder.{filter_rows}

below :
    (height stride : ℕ) (rgba : Bytes)
    → suc height * stride ≤ length rgba
    → height * stride ≤ length (drop stride rgba)
below height stride rgba h = omega (arith, length-drop stride rgba)

pub length-filter_rows :
    (height stride : ℕ) (rgba : Bytes)
    → height * stride ≤ length rgba
    → length (filter_rows height stride rgba) ≡ height * (stride + 1)
unfolding filter_rows
length-filter_rows zero stride rgba h = omega arith
length-filter_rows (suc height) stride rgba h =
    let l : length (take stride rgba) ≡ stride = length-take stride rgba (omega arith) in
    let r : length (filter_rows height stride (drop stride rgba)) ≡ height * (stride + 1) =
      length-filter_rows height stride (drop stride rgba) (below height stride rgba h) in
    omega (arith, length-append (take stride rgba) (filter_rows height stride (drop stride rgba)))

pub validate_filters-filter_rows :
    (fuel height stride : ℕ) (rgba : Bytes)
    → height * stride ≤ length rgba
    → validate_filters fuel (stride + 1) (filter_rows height stride rgba) ≡ ok tt
unfolding filter_rows validate_filters
validate_filters-filter_rows zero height stride rgba h = refl
validate_filters-filter_rows (suc fuel) zero stride rgba h = refl
validate_filters-filter_rows (suc fuel) (suc height) stride rgba h =
    rw
      (drop-append (stride + 1) (0 ∷ take stride rgba)
        (filter_rows height stride (drop stride rgba))
        (ap suc (length-take stride rgba (omega arith)) ∙ omega arith))
      (validate_filters-filter_rows fuel height stride (drop stride rgba)
        (below height stride rgba h))

pub convert_rows-filter_rows :
    (fuel width height : ℕ) (previous : Option Bytes) (rgba : Bytes)
    → 1 ≤ width
    → height * (width * 4) ≤ length rgba
    → height ≤ fuel
    → convert_rows fuel width 6 4 previous (filter_rows height (width * 4) rgba)
      ≡ take (height * (width * 4)) rgba
unfolding filter_rows convert_rows convert_row unfilter_row
convert_rows-filter_rows zero width zero previous rgba w l f =
    sym (take_zero rgba) ∙ ap (λ k. take k rgba) (omega arith)
convert_rows-filter_rows zero width (suc height) previous rgba w l f = absurd (omega arith)
convert_rows-filter_rows (suc fuel) width zero previous rgba w l f =
    sym (take_zero rgba) ∙ ap (λ k. take k rgba) (omega arith)
convert_rows-filter_rows (suc fuel) width (suc height) previous rgba w l f =
    let row : Bytes = take (width * 4) rgba in
    let l_row : length row ≡ width * 4 = length-take (width * 4) rgba (omega arith) in
    convert_rows-row fuel width 6 4 0 previous row
      (filter_rows height (width * 4) (drop (width * 4) rgba)) l_row (omega arith)
    ∙ ap (λ t. row ++ t)
        (convert_rows-filter_rows fuel width height (some row) (drop (width * 4) rgba) w
          (below height (width * 4) rgba l) (omega arith))
    ∙ take_add (width * 4) (height * (width * 4)) rgba
    ∙ ap (λ k. take k rgba) (omega arith)
