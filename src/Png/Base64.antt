-- ===== src/Png/Base64.antt =====
-- `getBase64DecodedLength` of packages/core/src/image-decode.ts, on the codes of the text's
-- characters.
use robloxstudio_mcp.Bytes.{Bytes, take, take-append}
use robloxstudio_mcp.Shared.{
  ℕ, zero, suc, ◌+◌, ◌-◌, ◌*◌, ◌/◌, ◌%◌, ◌≤◌, ◌<◌, ◌≡◌, refl, Bool, true, false, [], ◌∷◌, ◌++◌,
  ◌&&◌, ◌||◌, not, ◌==◌, length, length-append, ltb, leb, if◌then◌else◌, arith, ap, sym, ◌∙◌, subst,
  ◌⊎◌, inl, inr, Result, ok, ◌>>◌, throw_if, append-nil,
}
use robloxstudio_mcp.Png.{PngError, base64_too_long, invalid_base64, byte_at, validate_input_size}

abbrev pub max_png_input_bytes : ℕ
max_png_input_bytes = 33554432

-- `4 * Math.ceil(MAX_PNG_INPUT_BYTES / 3)`.
abbrev pub max_png_base64_characters : ℕ
max_png_base64_characters = 44739244

-- Does the text end with `=`, before as many characters as the first argument?
unfoldable pub is_padded : ℕ → Bytes → Bool
is_padded back encoded =
    ltb back (length encoded) && (byte_at encoded (length encoded - 1 - back) == 61)

unfoldable pub padding_of : Bytes → ℕ
padding_of encoded =
    (if is_padded 0 encoded then 1 else 0)
    + (if is_padded 0 encoded && is_padded 1 encoded then 1 else 0)

unfoldable pub is_base64 : ℕ → Bool
is_base64 code =
    (leb 65 code && leb code 90)
    || (leb 97 code && leb code 122)
    || (leb 48 code && leb code 57)
    || code == 43
    || code == 47

-- The loop over the content's characters.
unfoldable pub all_base64 : Bytes → Bool
all_base64 [] = true
all_base64 (c ∷ cs) = is_base64 c && all_base64 cs

abbrev pub tail_bytes : ℕ → ℕ
tail_bytes remainder = if remainder == 2 then 1 else if remainder == 3 then 2 else 0

abbrev pub is_misaligned : ℕ → ℕ → ℕ → Bool
is_misaligned total padding remainder =
    remainder == 1
    || (ltb 0 padding && not (total % 4 == 0))
    || (padding == 1 && not (remainder == 3))
    || (padding == 2 && not (remainder == 2))

unfoldable pub base64_decoded_length : Bytes → Result PngError ℕ
base64_decoded_length encoded =
    let padding = padding_of encoded in
    let content = length encoded - padding in
    let decoded = content / 4 * 3 + tail_bytes (content % 4) in
    do
      throw_if (ltb max_png_base64_characters (length encoded)) base64_too_long
      throw_if (is_misaligned (length encoded) padding (content % 4)) invalid_base64
      validate_input_size decoded max_png_input_bytes
      throw_if (not (all_base64 (take content encoded))) invalid_base64
      ok decoded

-- As many `=` as complete the last group of four characters.
abbrev pub pads : ℕ → Bytes
pads n = if n % 3 == 0 then [] else if n % 3 == 1 then 61 ∷ 61 ∷ [] else 61 ∷ []

byte_at-next : (b i : ℕ) (s : Bytes) → 1 ≤ i → byte_at (b ∷ s) i ≡ byte_at s (i - 1)
unfolding byte_at
byte_at-next b i s h = let far : (i == 0) ≡ false = ground (arith, h) in rw (far)

first_byte : (b : ℕ) (s t : Bytes) → byte_at (b ∷ s) 0 ≡ byte_at (b ∷ t) 0
unfolding byte_at
first_byte b s t = refl

only_byte : (b : ℕ) → byte_at (b ∷ []) 0 ≡ b
unfolding byte_at
only_byte b = refl

byte_at-append : (s t : Bytes) (i : ℕ) → byte_at (s ++ t) (length s + i) ≡ byte_at t i
byte_at-append [] t i = ap (byte_at t) (omega arith)
byte_at-append (b ∷ s) t i =
    byte_at-next b (length (b ∷ s) + i) (s ++ t) (omega arith)
    ∙ ap (byte_at (s ++ t)) (omega arith)
    ∙ byte_at-append s t i

byte_at-before : (s t : Bytes) (i : ℕ) → i < length s → byte_at (s ++ t) i ≡ byte_at s i
byte_at-before [] t i h = absurd (omega arith)
byte_at-before (b ∷ s) t zero h = first_byte b (s ++ t) s
byte_at-before (b ∷ s) t (suc i) h =
    byte_at-next b (suc i) (s ++ t) (omega arith)
    ∙ ap (byte_at (s ++ t)) (omega arith)
    ∙ byte_at-before s t i (omega arith)
    ∙ sym (byte_at-next b (suc i) s (omega arith) ∙ ap (byte_at s) (omega arith))

no_pad : (c : ℕ) → is_base64 c ≡ true → (c == 61) ≡ false
unfolding is_base64
no_pad c h = ground (arith, h)

last_is_base64 :
    (s : Bytes) → all_base64 s ≡ true → 1 ≤ length s → (byte_at s (length s - 1) == 61) ≡ false
unfolding all_base64
last_is_base64 [] a l = absurd (omega arith)
last_is_base64 (b ∷ []) a l =
    let good : is_base64 b ≡ true = ground (arith, a) in
    ap (λ c. c == 61) (ap (byte_at (b ∷ [])) (omega arith) ∙ only_byte b) ∙ no_pad b good
last_is_base64 (b ∷ c ∷ s) a l =
    ap (λ k. k == 61)
      (byte_at-next b (length (b ∷ c ∷ s) - 1) (c ∷ s) (omega arith)
        ∙ ap (byte_at (c ∷ s)) (omega arith))
    ∙ last_is_base64 (c ∷ s) (ground (arith, a)) (omega arith)

decoded_from :
    (body tail : Bytes) (n p : ℕ)
    → padding_of (body ++ tail) ≡ p
    → length tail ≡ p
    → is_misaligned (length body + p) p (length body % 4) ≡ false
    → length body / 4 * 3 + tail_bytes (length body % 4) ≡ n
    → n ≤ 33554432
    → length body + p ≤ 44739244
    → all_base64 body ≡ true
    → base64_decoded_length (body ++ tail) ≡ ok n
unfolding base64_decoded_length validate_input_size
decoded_from body tail n p padded l aligned decoded small short good =
    let total : length (body ++ tail) ≡ length body + p = length-append body tail ∙ omega arith in
    let content : length body + p - p ≡ length body = omega arith in
    let fits : ltb 44739244 (length body + p) ≡ false = ground (arith, short) in
    let limit : ltb 33554432 n ≡ false = ground (arith, small) in
    rw (
      total,
      padded,
      content,
      fits,
      aligned,
      decoded,
      limit,
      take-append (length body) body tail refl,
      good,
    )

and_false : (b : Bool) → (b && false) ≡ false
and_false b = ground arith

thirds : (n : ℕ) → (n % 3 ≡ 0) ⊎ ((n % 3 ≡ 1) ⊎ (n % 3 ≡ 2))
thirds n = ground arith

-- The padding character that stands `i` places into the padding.
pad_at :
    (back i : ℕ) (body tail : Bytes)
    → byte_at tail i ≡ 61
    → i + back + 1 ≡ length tail
    → is_padded back (body ++ tail) ≡ true
unfolding is_padded
pad_at back i body tail p e =
    let total : length (body ++ tail) ≡ length body + length tail = length-append body tail in
    let far : ltb back (length (body ++ tail)) ≡ true = ground (arith, total, e) in
    let here : (byte_at (body ++ tail) (length (body ++ tail) - 1 - back) == 61) ≡ true =
      ap (λ k. byte_at (body ++ tail) k == 61) (omega (arith, total, e))
      ∙ ap (λ k. k == 61) (byte_at-append body tail i ∙ p) in
    rw (far, here) refl

no_pad_at :
    (body : Bytes)
    → all_base64 body ≡ true
    → 1 ≤ length body
    → is_padded 1 (body ++ 61 ∷ []) ≡ false
unfolding is_padded
no_pad_at body a l =
    let total : length (body ++ 61 ∷ []) ≡ length body + 1 = length-append body (61 ∷ []) in
    let here : (byte_at (body ++ 61 ∷ []) (length (body ++ 61 ∷ []) - 1 - 1) == 61) ≡ false =
      ap (λ k. byte_at (body ++ 61 ∷ []) k == 61) (omega (arith, total))
      ∙ ap (λ k. k == 61) (byte_at-before body (61 ∷ []) (length body - 1) (omega arith))
      ∙ last_is_base64 body a l in
    rw (here) (and_false (ltb 1 (length (body ++ 61 ∷ []))))

unpadded : (body : Bytes) → all_base64 body ≡ true → is_padded 0 body ≡ false
unfolding is_padded
unpadded [] a = refl
unpadded (b ∷ body) a =
    let last = last_is_base64 (b ∷ body) a (omega arith) in
    let here : (byte_at (b ∷ body) (length (b ∷ body) - 1 - 0) == 61) ≡ false =
      ap (λ k. byte_at (b ∷ body) k == 61) (omega arith) ∙ last in
    rw (here) (and_false (ltb 0 (length (b ∷ body))))

padding_of-none : (body : Bytes) → all_base64 body ≡ true → padding_of (body ++ []) ≡ 0
unfolding padding_of
padding_of-none body a = rw (append-nil body, unpadded body a) refl

padding_of-one :
    (body : Bytes) → all_base64 body ≡ true → 1 ≤ length body → padding_of (body ++ 61 ∷ []) ≡ 1
unfolding padding_of byte_at
padding_of-one body a l =
    let first : is_padded 0 (body ++ 61 ∷ []) ≡ true =
      pad_at 0 0 body (61 ∷ []) refl (omega arith) in
    let second : is_padded 1 (body ++ 61 ∷ []) ≡ false = no_pad_at body a l in
    rw (first, second) refl

padding_of-two : (body : Bytes) → padding_of (body ++ 61 ∷ 61 ∷ []) ≡ 2
unfolding padding_of byte_at
padding_of-two body =
    let first : is_padded 0 (body ++ 61 ∷ 61 ∷ []) ≡ true =
      pad_at 0 1 body (61 ∷ 61 ∷ []) refl (omega arith) in
    let second : is_padded 1 (body ++ 61 ∷ 61 ∷ []) ≡ true =
      pad_at 1 0 body (61 ∷ 61 ∷ []) refl (omega arith) in
    rw (first, second) refl

-- A base64 text of n bytes, as many characters of the alphabet as n bytes take and the padding
-- that completes the last group of four, is accepted with the length n, for every n of at most 32
-- Mi.
pub base64_decoded_length-pads :
    (n : ℕ) (body : Bytes)
    → all_base64 body ≡ true
    → length body ≡ n / 3 * 4 + (if n % 3 == 0 then 0 else n % 3 + 1)
    → n ≤ 33554432
    → base64_decoded_length (body ++ pads n) ≡ ok n
base64_decoded_length-pads n body a l small = elim (thirds n) [
  | inl zero_left ↦
      let whole : length body ≡ n / 3 * 4 = ground (arith, zero_left, l) in
      let none_needed : pads n ≡ [] = ground (arith, zero_left) in
      subst (λ t. base64_decoded_length (body ++ t) ≡ ok n) (sym none_needed)
        (decoded_from body [] n 0 (padding_of-none body a) refl (ground (arith, whole))
          (ground (arith, whole, zero_left)) small (omega arith) a)
  | inr (inl one_left) ↦
      let whole : length body ≡ n / 3 * 4 + 2 = ground (arith, one_left, l) in
      let two_needed : pads n ≡ 61 ∷ 61 ∷ [] = ground (arith, one_left) in
      subst (λ t. base64_decoded_length (body ++ t) ≡ ok n) (sym two_needed)
        (decoded_from body (61 ∷ 61 ∷ []) n 2 (padding_of-two body) refl (ground (arith, whole))
          (ground (arith, whole, one_left)) small (omega arith) a)
  | inr (inr two_left) ↦
      let whole : length body ≡ n / 3 * 4 + 3 = ground (arith, two_left, l) in
      let one_needed : pads n ≡ 61 ∷ [] = ground (arith, two_left) in
      subst (λ t. base64_decoded_length (body ++ t) ≡ ok n) (sym one_needed)
        (decoded_from body (61 ∷ []) n 1 (padding_of-one body a (omega arith)) refl
          (ground (arith, whole)) (ground (arith, whole, two_left)) small (omega arith) a)
]
