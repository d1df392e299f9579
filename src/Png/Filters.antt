-- ===== src/Png/Filters.antt =====
-- PNG's row filters as the format defines them, for `unfilterPngRow` of
-- packages/core/src/image-decode.ts.
use robloxstudio_mcp.Bytes.{Bytes, take-append, drop-append}
use robloxstudio_mcp.Shared.{
  ℕ, zero, suc, ◌+◌, ◌-◌, ◌*◌, ◌%◌, ◌≤◌, ◌<◌, ◌≡◌, refl, false, Option, none, some, List, [], ◌∷◌,
  ◌++◌, ◌==◌, length, leb, if◌then◌else◌, arith, ap, append_assoc, append-nil, sym, ◌∙◌, subst, ◌⊎◌,
}
use robloxstudio_mcp.Png.{byte_at}
use robloxstudio_mcp.Png.Rows.{
  distance, paeth_predictor, predictor, above, predicted, unfilter_bytes, unfilter_row, convert_row,
  convert_rows,
}

-- The format's filter types, with their numbers.
pub data FilterType : Type 0 where
  unfiltered sub up average paeth : FilterType

abbrev pub filter_number : FilterType → ℕ
filter_number unfiltered = 0
filter_number sub = 1
filter_number up = 2
filter_number average = 3
filter_number paeth = 4

-- The one of a, b and c that is nearest to a + b - c, ties in the order a, b, c. Both sides of a
-- distance have c added.
abbrev pub IsPaeth : ℕ → ℕ → ℕ → ℕ → Type 0
IsPaeth a b c p =
    let da = distance (a + b) (a + c) in
    let db = distance (a + b) (b + c) in
    let dc = distance (a + b) (c + c) in
    ((p ≡ a) × (da ≤ db) × (da ≤ dc))
    ⊎ (((p ≡ b) × (db < da) × (db ≤ dc)) ⊎ ((p ≡ c) × (dc < da) × (dc < db)))

-- The predictor of a byte from the byte to its left, the one above it and the one above that to
-- the left.
abbrev pub IsPredictor : FilterType → ℕ → ℕ → ℕ → ℕ → Type 0
IsPredictor unfiltered a b c p = p ≡ 0
IsPredictor sub a b c p = p ≡ a
IsPredictor up a b c p = p ≡ b
IsPredictor average a b c p = (2 * p ≤ a + b) × (a + b < 2 * p + 2)
IsPredictor paeth a b c p = IsPaeth a b c p

-- As many bytes 0 as a pixel has, which stand to the left of a row.
abbrev pub zeros : ℕ → Bytes
zeros zero = []
zeros (suc n) = 0 ∷ zeros n

abbrev pub row_above : Option Bytes → Bytes
row_above none = []
row_above (some previous) = previous

-- The bytes of a row after those of `before`, and those that stand for them in the file:
-- Filt(x) + Predictor(x) = Orig(x) modulo 256.
abbrev pub IsFiltered : FilterType → ℕ → Option Bytes → Bytes → Bytes → Bytes → Type 0
IsFiltered type bpp previous before [] [] = Unit
IsFiltered type bpp previous before [] (f ∷ filtered) = ⊥
IsFiltered type bpp previous before (b ∷ row) [] = ⊥
IsFiltered type bpp previous before (b ∷ row) (f ∷ filtered) =
    (f < 256)
    × ((p : ℕ) × IsPredictor type (byte_at (zeros bpp ++ before) (length before))
          (byte_at (row_above previous) (length before))
          (byte_at (zeros bpp ++ row_above previous) (length before)) p
        × ((f + p) % 256 ≡ b))
    × IsFiltered type bpp previous (before ++ b ∷ []) row filtered

-- The scanlines of an image: each row, as long as `stride`, with the number of the filter type that
-- its writer has chosen in front.
abbrev pub IsFilteredImage : ℕ → ℕ → Option Bytes → List (FilterType × Bytes) → Bytes → Type 0
IsFilteredImage stride bpp previous [] raw = raw ≡ []
IsFilteredImage stride bpp previous ((type, row) ∷ rows) raw =
    (filtered : Bytes) × (rest : Bytes) × (raw ≡ filter_number type ∷ (filtered ++ rest))
    × (length row ≡ stride)
    × IsFiltered type bpp previous [] row filtered
    × IsFilteredImage stride bpp (some row) rows rest

abbrev pub rows_converted : ℕ → ℕ → ℕ → List (FilterType × Bytes) → Bytes
rows_converted width color_type bpp [] = []
rows_converted width color_type bpp ((type, row) ∷ rows) =
    convert_row width color_type bpp row ++ rows_converted width color_type bpp rows

-- The Paeth predictor is the one of a, b and c that is nearest to a + b - c, and of those equally
-- near the first in the order a, b, c.
pub paeth_predictor-IsPaeth : (a b c : ℕ) → IsPaeth a b c (paeth_predictor a b c)
unfolding paeth_predictor
paeth_predictor-IsPaeth a b c = ground arith

paeth_unique : (a b c p : ℕ) → IsPaeth a b c p → paeth_predictor a b c ≡ p
unfolding paeth_predictor
paeth_unique a b c p h = ground arith

predictor-IsPredictor :
    (type : FilterType) (a b c p : ℕ)
    → (filter_number type == 0) ≡ false
    → IsPredictor type a b c p
    → predictor (filter_number type) a b c ≡ p
unfolding predictor
predictor-IsPredictor unfiltered a b c p n h = cc
predictor-IsPredictor sub a b c p n h = sym h
predictor-IsPredictor up a b c p n h = sym h
predictor-IsPredictor average a b c p n h = omega (arith, h.0, h.1)
predictor-IsPredictor paeth a b c p n h = paeth_unique a b c p h

byte_at-zeros :
    (n x : ℕ) (s : Bytes) → byte_at (zeros n ++ s) x ≡ (if leb n x then byte_at s (x - n) else 0)
unfolding byte_at
byte_at-zeros zero x s = grind arith
byte_at-zeros (suc n) zero s = grind arith
byte_at-zeros (suc n) (suc x) s = grind (arith, byte_at-zeros n x s)

byte_at-row_above :
    (previous : Option Bytes) (x : ℕ) → byte_at (row_above previous) x ≡ above previous x
unfolding byte_at above
byte_at-row_above none x = refl
byte_at-row_above (some previous) x = refl

-- The predictor of the code is the format's one, of the types that the code predicts.
predicted-IsPredictor :
    (type : FilterType) (bpp p : ℕ) (previous : Option Bytes) (done : Bytes)
    → (filter_number type == 0) ≡ false
    → IsPredictor type
        (byte_at (zeros bpp ++ done) (length done))
        (byte_at (row_above previous) (length done))
        (byte_at (zeros bpp ++ row_above previous) (length done))
        p
    → predicted (filter_number type) bpp previous done ≡ p
unfolding predicted
predicted-IsPredictor type bpp p previous done n h =
    rw
      (
        ← byte_at-zeros bpp (length done) done,
        ← byte_at-row_above previous (length done),
        ← byte_at-row_above previous (length done - bpp),
        ← byte_at-zeros bpp (length done) (row_above previous),
      )
      (predictor-IsPredictor type _ _ _ p n h)

unfilter_bytes-IsFiltered :
    (type : FilterType) (bpp : ℕ) (previous : Option Bytes) (done row filtered : Bytes)
    → (filter_number type == 0) ≡ false
    → IsFiltered type bpp previous done row filtered
    → unfilter_bytes (filter_number type) bpp previous done filtered ≡ done ++ row
unfolding unfilter_bytes
unfilter_bytes-IsFiltered type bpp previous done [] [] n h = sym (append-nil done)
unfilter_bytes-IsFiltered type bpp previous done [] (f ∷ filtered) n h = absurd h
unfilter_bytes-IsFiltered type bpp previous done (b ∷ row) [] n h = absurd h
unfilter_bytes-IsFiltered type bpp previous done (b ∷ row) (f ∷ filtered) n (w, (p, i, e), h) =
    subst
      (λ k.
        unfilter_bytes (filter_number type) bpp previous (done ++ k ∷ []) filtered
        ≡ done ++ (b ∷ row))
      (sym (ap (λ q. (f + q) % 256) (predicted-IsPredictor type bpp p previous done n i) ∙ e))
      (unfilter_bytes-IsFiltered type bpp previous (done ++ b ∷ []) row filtered n h
        ∙ append_assoc done (b ∷ []) row)

unfiltered_same :
    (bpp : ℕ) (previous : Option Bytes) (before row filtered : Bytes)
    → IsFiltered unfiltered bpp previous before row filtered
    → filtered ≡ row
unfiltered_same bpp previous before [] [] h = refl
unfiltered_same bpp previous before [] (f ∷ filtered) h = absurd h
unfiltered_same bpp previous before (b ∷ row) [] h = absurd h
unfiltered_same bpp previous before (b ∷ row) (f ∷ filtered) (w, (p, i, e), h) =
    ap (λ k. k ∷ filtered) (omega (arith, w, i, e))
    ∙ ap (λ r. b ∷ r) (unfiltered_same bpp previous (before ++ b ∷ []) row filtered h)

unfilter_row-IsFiltered :
    (type : FilterType) (bpp : ℕ) (previous : Option Bytes) (row filtered : Bytes)
    → IsFiltered type bpp previous [] row filtered
    → unfilter_row (filter_number type) bpp previous filtered ≡ row
unfolding unfilter_row
unfilter_row-IsFiltered unfiltered bpp previous row filtered h =
    unfiltered_same bpp previous [] row filtered h
unfilter_row-IsFiltered sub bpp previous row filtered h =
    unfilter_bytes-IsFiltered sub bpp previous [] row filtered refl h
unfilter_row-IsFiltered up bpp previous row filtered h =
    unfilter_bytes-IsFiltered up bpp previous [] row filtered refl h
unfilter_row-IsFiltered average bpp previous row filtered h =
    unfilter_bytes-IsFiltered average bpp previous [] row filtered refl h
unfilter_row-IsFiltered paeth bpp previous row filtered h =
    unfilter_bytes-IsFiltered paeth bpp previous [] row filtered refl h

length-IsFiltered :
    (type : FilterType) (bpp : ℕ) (previous : Option Bytes) (before row filtered : Bytes)
    → IsFiltered type bpp previous before row filtered
    → length filtered ≡ length row
length-IsFiltered type bpp previous before [] [] h = refl
length-IsFiltered type bpp previous before [] (f ∷ filtered) h = absurd h
length-IsFiltered type bpp previous before (b ∷ row) [] h = absurd h
length-IsFiltered type bpp previous before (b ∷ row) (f ∷ filtered) h =
    ap suc (length-IsFiltered type bpp previous (before ++ b ∷ []) row filtered h.2)

-- One round of the code's loop, on a row that is in front of `rest`.
pub convert_rows-row :
    (fuel width color_type bpp filter : ℕ) (previous : Option Bytes) (row rest : Bytes)
    → length row ≡ width * bpp
    → 1 ≤ width * bpp
    → convert_rows (suc fuel) width color_type bpp previous (filter ∷ (row ++ rest))
      ≡ convert_row width color_type bpp (unfilter_row filter bpp previous row)
        ++ convert_rows fuel width color_type bpp (some (unfilter_row filter bpp previous row)) rest
unfolding convert_rows
convert_rows-row fuel width color_type bpp filter previous [] rest h p = absurd (omega arith)
convert_rows-row fuel width color_type bpp filter previous (b ∷ row) rest h p =
    rw (take-append (width * bpp) (b ∷ row) rest h, drop-append (width * bpp) (b ∷ row) rest h)

-- Scanlines that were filtered as the PNG format defines it, each row with a filter type of its
-- own (none, Sub, Up, Average or Paeth, with the bytes outside the image taken as 0), are
-- converted to the pixels of the rows before filtering, with as much fuel as there are rows.
pub convert_rows-IsFilteredImage :
    (fuel width color_type bpp : ℕ) (previous : Option Bytes) (rows : List (FilterType × Bytes))
    (raw : Bytes)
    → 1 ≤ width * bpp
    → IsFilteredImage (width * bpp) bpp previous rows raw
    → length rows ≤ fuel
    → convert_rows fuel width color_type bpp previous raw ≡ rows_converted width color_type bpp rows
unfolding convert_rows
convert_rows-IsFilteredImage zero width color_type bpp previous [] raw p v l = refl
convert_rows-IsFilteredImage zero width color_type bpp previous (r ∷ rows) raw p v l =
    absurd (omega arith)
convert_rows-IsFilteredImage (suc fuel) width color_type bpp previous [] raw p v l =
    rw (v, convert_rows)
convert_rows-IsFilteredImage (suc fuel) width color_type bpp previous ((type, row) ∷ rows) raw p
      (filtered, rest, e, n, h, v) l =
    ap (convert_rows (suc fuel) width color_type bpp previous) e
    ∙ rw (
      convert_rows-row fuel width color_type bpp (filter_number type) previous filtered rest
          (length-IsFiltered type bpp previous [] row filtered h ∙ n) p,
      unfilter_row-IsFiltered type bpp previous row filtered h,
      convert_rows-IsFilteredImage fuel width color_type bpp (some row) rows rest p v (omega arith),
    )
