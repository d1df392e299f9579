-- ===== src/Png/Colors.antt =====
-- The pixels of an image against the numbers that `isUniformPng` compares.
use robloxstudio_mcp.Bytes.{Bytes, drop_zero, take, drop, length-take, length-drop}
use robloxstudio_mcp.Shared.{
  ℕ, zero, suc, ◌+◌, ◌*◌, ◌≤◌, ◌≡◌, refl, Bool, true, false, Option, some, [], ◌∷◌, ◌++◌, ◌&&◌,
  ◌==◌, ◌%◌, not, length, length-append, arith, ok, ap, ◌∙◌, subst, inl, inr, Bool-cases,
  append_assoc,
}
use robloxstudio_mcp.Png.{byte_at, bytes_per_pixel}
use robloxstudio_mcp.Png.Rows.{
  unfilter_bytes, unfilter_row, convert_pixel, convert_pixels, convert_row, convert_rows, predicted,
  is_color, uniform_pixels, uniform_rows,
}
use robloxstudio_mcp.Png.Chunks.{is_grayscale}

-- The colours of the first pixels are the three numbers; alpha is not looked at.
unfoldable pub all_pixels : ℕ → ℕ → ℕ → ℕ → Bytes → Bool
all_pixels zero red green blue rgba = true
all_pixels (suc count) red green blue rgba =
    ((byte_at rgba 0 == red) && ((byte_at rgba 1 == green) && (byte_at rgba 2 == blue)))
    && all_pixels count red green blue (drop 4 rgba)

length-unfilter_bytes :
    (filter bpp : ℕ) (previous : Option Bytes) (done row : Bytes)
    → length (unfilter_bytes filter bpp previous done row) ≡ length done + length row
unfolding unfilter_bytes
length-unfilter_bytes filter bpp previous done [] = omega arith
length-unfilter_bytes filter bpp previous done (b ∷ rest) =
    length-unfilter_bytes filter bpp previous
      (done ++ ((b + predicted filter bpp previous done) % 256) ∷ []) rest
    ∙ omega (arith, length-append done (((b + predicted filter bpp previous done) % 256) ∷ []))

pub length-unfilter_row :
    (filter bpp : ℕ) (previous : Option Bytes) (row : Bytes)
    → length (unfilter_row filter bpp previous row) ≡ length row
unfolding unfilter_row
length-unfilter_row filter bpp previous row = elim (Bool-cases (filter == 0)) [
  | inl e ↦ rw (e)
  | inr e ↦ rw (e) (length-unfilter_bytes filter bpp previous [] row ∙ omega arith)
]

-- A gray image's three colours are one.
abbrev pub Agree : ℕ → ℕ → ℕ → ℕ → Type 0
Agree color_type red green blue = is_grayscale color_type ≡ true → (green ≡ red) × (blue ≡ red)

is_color-convert_pixel :
    (color_type red green blue : ℕ) (row : Bytes)
    → is_grayscale color_type ≡ not (color_type == 2)
    → Agree color_type red green blue
    → is_color (is_grayscale color_type) red green blue row ≡ (
        (byte_at (convert_pixel color_type row) 0 == red)
        && ((byte_at (convert_pixel color_type row) 1 == green)
            && (byte_at (convert_pixel color_type row) 2 == blue)))
unfolding is_color convert_pixel byte_at
is_color-convert_pixel color_type red green blue row g a = ground arith

all_pixels-convert_pixel :
    (color_type red green blue total : ℕ) (row rest : Bytes)
    → all_pixels (suc total) red green blue (convert_pixel color_type row ++ rest) ≡ (
        ((byte_at (convert_pixel color_type row) 0 == red)
          && ((byte_at (convert_pixel color_type row) 1 == green)
              && (byte_at (convert_pixel color_type row) 2 == blue)))
        && all_pixels total red green blue rest)
unfolding all_pixels drop convert_pixel byte_at
all_pixels-convert_pixel color_type red green blue total row rest =
    elim (Bool-cases (color_type == 2)) [
      | inl e ↦ rw (e, drop_zero rest)
      | inr e ↦ rw (e, drop_zero rest)
    ]

and_assoc : (a b c : Bool) → ((a && b) && c) ≡ (a && (b && c))
and_assoc a b c = ground arith

uniform-convert_pixels :
    (color_type red green blue bpp count n total : ℕ) (row rest : Bytes)
    → is_grayscale color_type ≡ not (color_type == 2)
    → Agree color_type red green blue
    → total ≡ count + n
    → (uniform_pixels (is_grayscale color_type) red green blue bpp count row
        && all_pixels n red green blue rest)
      ≡ all_pixels total red green blue (convert_pixels color_type bpp count row ++ rest)
unfolding uniform_pixels all_pixels convert_pixels
uniform-convert_pixels color_type red green blue bpp zero n total row rest g a e =
    ap (λ k. all_pixels k red green blue rest) (omega arith)
uniform-convert_pixels color_type red green blue bpp (suc count) n zero row rest g a e =
    absurd (omega arith)
uniform-convert_pixels color_type red green blue bpp (suc count) n (suc total) row rest g a e = rw (
  and_assoc (is_color (is_grayscale color_type) red green blue row)
      (uniform_pixels (is_grayscale color_type) red green blue bpp count (drop bpp row))
      (all_pixels n red green blue rest),
  uniform-convert_pixels color_type red green blue bpp count n total (drop bpp row) rest g a
      (omega arith),
  is_color-convert_pixel color_type red green blue row g a,
  append_assoc (convert_pixel color_type row) (convert_pixels color_type bpp count (drop bpp row))
      rest,
  all_pixels-convert_pixel color_type red green blue total row
      (convert_pixels color_type bpp count (drop bpp row) ++ rest),
)

uniform-rgba :
    (red green blue count n total : ℕ) (row rest : Bytes)
    → length row ≡ count * 4
    → total ≡ count + n
    → (uniform_pixels false red green blue 4 count row && all_pixels n red green blue rest)
      ≡ all_pixels total red green blue (row ++ rest)
unfolding uniform_pixels all_pixels is_color byte_at drop
uniform-rgba red green blue zero n total [] rest l e =
    ap (λ k. all_pixels k red green blue rest) (omega arith)
uniform-rgba red green blue zero n total (a ∷ row) rest l e = absurd (omega arith)
uniform-rgba red green blue (suc count) n zero row rest l e = absurd (omega arith)
uniform-rgba red green blue (suc count) n (suc total) (a ∷ b ∷ c ∷ d ∷ row) rest l e = rw (
  drop_zero row,
  drop_zero (row ++ rest),
  and_assoc ((a == red) && ((b == green) && (c == blue)))
      (uniform_pixels false red green blue 4 count row) (all_pixels n red green blue rest),
  uniform-rgba red green blue count n total row rest (omega arith) (omega arith),
)
uniform-rgba red green blue (suc count) n (suc total) [] rest l e = absurd (omega arith)
uniform-rgba red green blue (suc count) n (suc total) (a ∷ []) rest l e = absurd (omega arith)
uniform-rgba red green blue (suc count) n (suc total) (a ∷ b ∷ []) rest l e = absurd (omega arith)
uniform-rgba red green blue (suc count) n (suc total) (a ∷ b ∷ c ∷ []) rest l e =
    absurd (omega arith)

pub rgba_color :
    (color_type bpp : ℕ)
    → bytes_per_pixel color_type ≡ ok bpp
    → (color_type == 6) ≡ true
    → (bpp ≡ 4) × (is_grayscale color_type ≡ false)
unfolding bytes_per_pixel is_grayscale
rgba_color color_type bpp c e = ground arith

pub other_color :
    (color_type bpp : ℕ)
    → bytes_per_pixel color_type ≡ ok bpp
    → (color_type == 6) ≡ false
    → is_grayscale color_type ≡ not (color_type == 2)
unfolding bytes_per_pixel is_grayscale
other_color color_type bpp c e = ground arith

uniform-convert_row :
    (color_type red green blue bpp width n total : ℕ) (row rest : Bytes)
    → bytes_per_pixel color_type ≡ ok bpp
    → Agree color_type red green blue
    → length row ≡ width * bpp
    → total ≡ width + n
    → (uniform_pixels (is_grayscale color_type) red green blue bpp width row
        && all_pixels n red green blue rest)
      ≡ all_pixels total red green blue (convert_row width color_type bpp row ++ rest)
unfolding convert_row
uniform-convert_row color_type red green blue bpp width n total row rest c a l e =
    elim (Bool-cases (color_type == 6)) [
      | inl six ↦
          let (four, color) = rgba_color color_type bpp c six in
          let l4 : length row ≡ width * 4 = subst (λ k. length row ≡ width * k) four l in
          rw (color, four, six) (uniform-rgba red green blue width n total row rest l4 e)
      | inr other ↦ rw (other) (
          uniform-convert_pixels color_type red green blue bpp width n total row rest
            (other_color color_type bpp c other) a e)
    ]

no_pixels :
    (total red green blue : ℕ) (rgba : Bytes)
    → 0 ≡ total
    → true ≡ all_pixels total red green blue rgba
unfolding all_pixels
no_pixels total red green blue rgba e = ap (λ k. all_pixels k red green blue rgba) e

pub uniform-convert_rows :
    (fuel color_type red green blue bpp width height total : ℕ) (previous : Option Bytes)
    (raw : Bytes)
    → bytes_per_pixel color_type ≡ ok bpp
    → Agree color_type red green blue
    → length raw ≡ height * (width * bpp + 1)
    → 1 ≤ width * bpp
    → height ≤ fuel
    → total ≡ height * width
    → uniform_rows fuel (is_grayscale color_type) red green blue width bpp previous raw
      ≡ all_pixels total red green blue (convert_rows fuel width color_type bpp previous raw)
unfolding uniform_rows convert_rows
uniform-convert_rows zero color_type red green blue bpp width zero total previous raw c a l p f e =
    no_pixels total red green blue [] (omega arith)
uniform-convert_rows zero color_type red green blue bpp width (suc height) total previous raw c a l
      p f e =
    absurd (omega arith)
uniform-convert_rows (suc fuel) color_type red green blue bpp width zero total previous [] c a l p f
      e =
    no_pixels total red green blue [] (omega arith)
uniform-convert_rows (suc fuel) color_type red green blue bpp width zero total previous (x ∷ raw) c
      a l p f e =
    absurd (omega arith)
uniform-convert_rows (suc fuel) color_type red green blue bpp width (suc height) total previous [] c
      a l p f e =
    absurd (omega arith)
uniform-convert_rows (suc fuel) color_type red green blue bpp width (suc height) total previous
      (x ∷ []) c a l p f e =
    absurd (omega arith)
uniform-convert_rows (suc fuel) color_type red green blue bpp width (suc height) total previous
      (x ∷ y ∷ raw) c a l p f e =
    let row : Bytes = unfilter_row x bpp previous (take (width * bpp) (y ∷ raw)) in
    let long : width * bpp ≤ length (y ∷ raw) = omega arith in
    let l_row : length row ≡ width * bpp =
      length-unfilter_row x bpp previous (take (width * bpp) (y ∷ raw))
      ∙ length-take (width * bpp) (y ∷ raw) long in
    let l_rest : length (drop (width * bpp) (y ∷ raw)) ≡ height * (width * bpp + 1) =
      length-drop (width * bpp) (y ∷ raw) ∙ omega arith in
    rw (
      uniform-convert_rows fuel color_type red green blue bpp width height (height * width)
          (some row) (drop (width * bpp) (y ∷ raw)) c a l_rest p (omega arith) refl,
      uniform-convert_row color_type red green blue bpp width (height * width) total row
          (convert_rows fuel width color_type bpp (some row) (drop (width * bpp) (y ∷ raw))) c a
          l_row (omega arith),
    )
