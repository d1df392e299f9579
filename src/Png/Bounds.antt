-- ===== src/Png/Bounds.antt =====
-- The checks of `inflatePng` in packages/core/src/image-decode.ts.
use robloxstudio_mcp.Bytes.{Bytes, take, drop, same}
use robloxstudio_mcp.Shared.{
  ℕ, zero, suc, ◌+◌, ◌*◌, ◌≤◌, ◌<◌, ◌≡◌, ◌⊎◌, refl, ap, ◌∙◌, Option, none, some, [], ◌∷◌, length,
  arith, ok, throw_if, >>=-ok, >>-ok, ok_inj, subst, ◌||◌, Bool-cases, inl, inr, not, ltb,
}
use robloxstudio_mcp.Png.{
  Zlib, not_a_png, png_signature, validate_input_size, bytes_per_pixel, validate_source_dimensions,
  expected_scanline_length, byte_at, unsupported_filter,
}
use robloxstudio_mcp.Png.Chunks.{
  Header, Scan, InflatedPng, read_header, accept_chunk, accept_ihdr, accept_idat, accept_iend,
  split_chunk, scan_chunks, inflate_scan, inflate_png, validate_filters, no_chunks, header_of,
}

pub record IsAdmitted (max_pixels : ℕ) (h : Header) : Type 0 where
  pub wide : (1 ≤ h.width) × (h.width ≤ 16384)
  pub high : (1 ≤ h.height) × (h.height ≤ 16384)
  pub pixels : h.width * h.height ≤ max_pixels
  pub color : bytes_per_pixel h.color_type ≡ ok h.bpp
  pub scanlines : h.expected ≡ h.height * (h.width * h.bpp + 1)
  pub bounded : h.expected ≤ max_pixels * 4 + 16384

validate_source_dimensions-bounds :
    (w h m : ℕ)
    → validate_source_dimensions w h m ≡ ok tt
    → (1 ≤ w) × (w ≤ 16384) × (1 ≤ h) × (h ≤ 16384) × (w * h ≤ m)
unfolding validate_source_dimensions
validate_source_dimensions-bounds w h m e = ground arith

expected_scanline_length-bounds :
    (w h b m x : ℕ)
    → expected_scanline_length w h b m ≡ ok x
    → (x ≡ h * (w * b + 1)) × (x ≤ m * 4 + 16384)
unfolding expected_scanline_length
expected_scanline_length-bounds w h b m x e = ground arith

read_header-IsAdmitted :
    (m : ℕ) (chunk : Bytes) (h : Header) → read_header m chunk ≡ ok h → IsAdmitted m h
unfolding read_header
read_header-IsAdmitted m chunk h e =
    grind (arith, validate_source_dimensions-bounds, expected_scanline_length-bounds)

abbrev AdmittedIfAny : ℕ → Option Header → Type 0
AdmittedIfAny m none = Unit
AdmittedIfAny m (some h) = IsAdmitted m h

accept_ihdr-Admitted :
    (m : ℕ) (chunk : Bytes) (s next : Scan)
    → accept_ihdr m chunk s ≡ ok next
    → AdmittedIfAny m next.header
unfolding accept_ihdr
accept_ihdr-Admitted m chunk s next e = grind (arith, read_header-IsAdmitted)

header-accept_idat :
    (m : ℕ) (chunk : Bytes) (s next : Scan)
    → accept_idat m chunk s ≡ ok next
    → next.header ≡ s.header
unfolding accept_idat
header-accept_idat m chunk s next e = ground arith

header-accept_iend :
    (chunk : Bytes) (s next : Scan) → accept_iend chunk s ≡ ok next → next.header ≡ s.header
unfolding accept_iend
header-accept_iend chunk s next e = ground arith

accept_chunk-Admitted :
    (m : ℕ) (type chunk : Bytes) (s next : Scan)
    → accept_chunk m type chunk s ≡ ok next
    → AdmittedIfAny m s.header
    → AdmittedIfAny m next.header
unfolding accept_chunk
accept_chunk-Admitted m type chunk s next e a =
    grind (arith, accept_ihdr-Admitted, header-accept_idat, header-accept_iend)

scan_chunks-Admitted :
    (fuel m : ℕ) (rest : Bytes) (s last : Scan)
    → scan_chunks fuel m rest s ≡ ok last
    → AdmittedIfAny m s.header
    → AdmittedIfAny m last.header
unfolding scan_chunks
scan_chunks-Admitted zero m rest s last e a = subst (λ n. AdmittedIfAny m n.header) (ok_inj e) a
scan_chunks-Admitted (suc fuel) m [] s last e a = subst (λ n. AdmittedIfAny m n.header) (ok_inj e) a
scan_chunks-Admitted (suc fuel) m (b ∷ rest) s last e a =
    let ((type, chunk), es, e1) = >>=-ok (split_chunk (m * 4) s.chunk_count (b ∷ rest)) _ e in
    let counted : Scan = record s { chunk_count = s.chunk_count + 1 } in
    let (next, en, e2) = >>=-ok (accept_chunk m type chunk counted) _ e1 in
    let an : AdmittedIfAny m next.header = accept_chunk-Admitted m type chunk counted next en a in
    elim (Bool-cases next.saw_iend) [
      | inl i ↦ subst (λ n. AdmittedIfAny m n.header) (ok_inj (rw (i) at e2)) an
      | inr i ↦
          scan_chunks-Admitted fuel m (drop (12 + length chunk) (b ∷ rest)) next last (rw (i) at e2)
            an
    ]

header-IsAdmitted :
    {m : ℕ} (o : Option Header) (h : Header)
    → header_of o ≡ ok h
    → AdmittedIfAny m o
    → IsAdmitted m h
header-IsAdmitted {m} none h e a = cc
header-IsAdmitted {m} (some g) h e a = subst (IsAdmitted m) (ok_inj e) a

pub rows_below : (h s n : ℕ) → n ≡ h * (s + 1) → h ≤ n
rows_below h s n e = omega arith

-- An image within the limits, with the scanlines that its header promises, as the later steps
-- use it.
pub record IsAccepted (max_pixels : ℕ) (png : InflatedPng) : Type 0 where
  pub wide : (1 ≤ png.width) × (png.width ≤ 16384)
  pub high : (1 ≤ png.height) × (png.height ≤ 16384)
  pub pixels : png.width * png.height ≤ max_pixels
  pub color : bytes_per_pixel png.color_type ≡ ok png.bpp
  pub whole : length png.raw ≡ png.height * (png.width * png.bpp + 1)
  pub bounded : length png.raw ≤ max_pixels * 4 + 16384
  pub filters : validate_filters (length png.raw) (png.width * png.bpp + 1) png.raw ≡ ok tt

inflate_scan-IsAccepted :
    (z : Zlib) (m : ℕ) (s : Scan) (png : InflatedPng)
    → inflate_scan z s ≡ ok png
    → AdmittedIfAny m s.header
    → IsAccepted m png
unfolding inflate_scan
inflate_scan-IsAccepted z m s png e a = grind (arith, header-IsAdmitted)

scan_file-Admitted :
    (fuel m : ℕ) (rest : Bytes) (s : Scan)
    → scan_chunks fuel m rest no_chunks ≡ ok s
    → AdmittedIfAny m s.header
scan_file-Admitted fuel m rest s e = scan_chunks-Admitted fuel m rest no_chunks s e tt

pub inflate_png-IsAccepted :
    (z : Zlib) (file : Bytes) (m : ℕ) (png : InflatedPng)
    → inflate_png z file m ≡ ok png
    → IsAccepted m png
unfolding inflate_png
inflate_png-IsAccepted z file m png e =
    let (_, e1) = >>-ok (validate_input_size (length file) (m * 4)) _ e in
    let (_, e2) =
      >>-ok (throw_if (ltb (length file) 8 || not (same (take 8 file) png_signature)) not_a_png) _
        e1 in
    let (s, es, e3) = >>=-ok (scan_chunks (length file) m (drop 8 file) no_chunks) _ e2 in
    inflate_scan-IsAccepted z m s png e3 (scan_file-Admitted (length file) m (drop 8 file) s es)

-- The colour types of eight bits a sample that are supported, RGBA, RGB, gray and gray with alpha,
-- with the bytes of a pixel.
abbrev pub IsSupportedColor : ℕ → ℕ → Type 0
IsSupportedColor color_type bpp =
    ((color_type ≡ 6) × (bpp ≡ 4))
    ⊎ (((color_type ≡ 2) × (bpp ≡ 3))
        ⊎ (((color_type ≡ 0) × (bpp ≡ 1)) ⊎ ((color_type ≡ 4) × (bpp ≡ 2))))

bytes_per_pixel-IsSupportedColor :
    (color_type bpp : ℕ) → bytes_per_pixel color_type ≡ ok bpp → IsSupportedColor color_type bpp
unfolding bytes_per_pixel
bytes_per_pixel-IsSupportedColor color_type bpp e = ground arith

byte_at-drop : (n i : ℕ) (s : Bytes) → byte_at (drop n s) i ≡ byte_at s (n + i)
unfolding byte_at drop
byte_at-drop zero i [] = refl
byte_at-drop zero i (b ∷ s) = grind arith
byte_at-drop (suc n) i [] = refl
byte_at-drop (suc n) i (b ∷ s) = grind (arith, byte_at-drop n i s)

validate_filters-byte_at :
    (fuel row_length k : ℕ) (raw : Bytes)
    → validate_filters fuel row_length raw ≡ ok tt
    → k < fuel
    → byte_at raw (k * row_length) ≤ 4
unfolding validate_filters byte_at
validate_filters-byte_at zero row_length k raw e l = absurd (omega arith)
validate_filters-byte_at (suc fuel) row_length k [] e l = omega arith
validate_filters-byte_at (suc fuel) row_length zero (f ∷ rest) e l =
    let (e1, e2) = >>-ok (throw_if (ltb 4 f) (unsupported_filter f)) _ e in
    let low : f ≤ 4 = ground (arith, e1) in grind (arith, low)
validate_filters-byte_at (suc fuel) row_length (suc k) (f ∷ rest) e l =
    let (e1, e2) = >>-ok (throw_if (ltb 4 f) (unsupported_filter f)) _ e in
    let there =
      validate_filters-byte_at fuel row_length k (drop row_length (f ∷ rest)) e2 (omega arith) in
    subst (λ b. b ≤ 4)
      (byte_at-drop row_length (k * row_length) (f ∷ rest) ∙ ap (byte_at (f ∷ rest)) (omega arith))
      there

-- An image within the limits, of a supported colour type, with the scanlines that its header
-- promises: each row's filter type, in front of it, is one of the five.
pub record IsSound (max_pixels : ℕ) (png : InflatedPng) : Type 0 where
  pub wide : (1 ≤ png.width) × (png.width ≤ 16384)
  pub high : (1 ≤ png.height) × (png.height ≤ 16384)
  pub pixels : png.width * png.height ≤ max_pixels
  pub color : IsSupportedColor png.color_type png.bpp
  pub whole : length png.raw ≡ png.height * (png.width * png.bpp + 1)
  pub bounded : length png.raw ≤ max_pixels * 4 + 16384
  pub filters : (row : ℕ) → row < png.height → byte_at png.raw (row * (png.width * png.bpp + 1)) ≤ 4

accepted-IsSound : (m : ℕ) (png : InflatedPng) → IsAccepted m png → IsSound m png
accepted-IsSound m png a = record {
  wide = a.wide;
  high = a.high;
  pixels = a.pixels;
  color = bytes_per_pixel-IsSupportedColor png.color_type png.bpp a.color;
  whole = a.whole;
  bounded = a.bounded;
  filters = λ row l.
      validate_filters-byte_at (length png.raw) (png.width * png.bpp + 1) row png.raw a.filters
        (omega (arith, l, rows_below png.height (png.width * png.bpp) (length png.raw) a.whole));
}

-- An image that inflatePng accepts has positive dimensions of at most 16,384, at most the allowed
-- pixels, the colour type RGBA, RGB, gray or gray with alpha with the bytes of a pixel that go
-- with it, and exactly the scanlines that its header promises, which are within the limit on
-- inflated bytes; the filter type in front of each row is at most 4.
pub inflate_png-IsSound :
    (z : Zlib) (file : Bytes) (m : ℕ) (png : InflatedPng)
    → inflate_png z file m ≡ ok png
    → IsSound m png
inflate_png-IsSound z file m png e = accepted-IsSound m png (inflate_png-IsAccepted z file m png e)
