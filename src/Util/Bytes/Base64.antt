-- ===== src/Util/Bytes/Base64.antt =====
-- base64url: what is encoded decodes to itself, and the alphabet of the output.
use smart_access_gateway.Prelude.{
  at_below, at_below, at_below, every_below, every_below, every_below, ℕ, ◌+◌, ◌*◌, ◌/◌, ◌%◌, ◌^◌,
  ◌<◌, ◌≡◌, refl, ap, ◌∙◌, Bool, true, ◌&&◌, ◌||◌, some, List, [], ◌∷◌, map, arith, all, All, leb,
  ◌==◌, ==_iff, nat_eq, string_eq,
}
use smart_access_gateway.Util.Bytes.{
  Text, alphabet, digit, index_of, IsByte, url_char, std_char, b64u, is_base64_char, strip_padding,
  decode, unb64u,
}

-- Every value below a small bound, checked by evaluation.
-- A digit as it stands in the output, read back by the decoder.
abbrev url_digit : ℕ → ℕ
url_digit i = url_char (digit i)

index_table : every_below 64 (λ i. index_of (std_char (url_digit i)) alphabet == i) ≡ true
unfolding every_below index_of digit
index_table = refl

char_table : every_below 64 (λ i. is_base64_char (std_char (url_digit i))) ≡ true
unfolding every_below digit
char_table = refl

-- The characters of a base64url text.
abbrev pub is_url_char : ℕ → Bool
is_url_char c =
    leb b'A' c && leb c b'Z'
    || leb b'a' c && leb c b'z'
    || leb b'0' c && leb c b'9'
    || c == b'-'
    || c == b'_'

url_table : every_below 64 (λ i. is_url_char (url_digit i)) ≡ true
unfolding every_below digit
url_table = refl

index-digit : (i : ℕ) → i < 64 → index_of (std_char (url_digit i)) alphabet ≡ i
index-digit i h = (==_iff _ i).0 (at_below _ 64 i h index_table)

base64_char-digit : (i : ℕ) → i < 64 → is_base64_char (std_char (url_digit i)) ≡ true
base64_char-digit i h = at_below _ 64 i h char_table

url_char-digit : (i : ℕ) → i < 64 → is_url_char (url_digit i) ≡ true
url_char-digit i h = at_below _ 64 i h url_table

-- The output as digits, each below 64.
unfoldable pub sextets : List ℕ → List ℕ
sextets [] = []
sextets (b0 ∷ []) = b0 / 4 ∷ b0 % 4 * 16 ∷ []
sextets (b0 ∷ b1 ∷ []) = b0 / 4 ∷ (b0 % 4 * 16 + b1 / 16) ∷ b1 % 16 * 4 ∷ []
sextets (b0 ∷ b1 ∷ b2 ∷ rest) =
    b0 / 4 ∷ (b0 % 4 * 16 + b1 / 16) ∷ (b1 % 16 * 4 + b2 / 64) ∷ b2 % 64 ∷ sextets rest

b64u-eq-digits : (bytes : List ℕ) → b64u bytes ≡ map url_digit (sextets bytes)
unfolding b64u sextets
b64u-eq-digits [] = refl
b64u-eq-digits (b0 ∷ []) = refl
b64u-eq-digits (b0 ∷ b1 ∷ []) = refl
b64u-eq-digits (b0 ∷ b1 ∷ b2 ∷ rest) = rw (b64u-eq-digits rest)

sextets_bound : (bytes : List ℕ) → All IsByte bytes → All (λ i. i < 64) (sextets bytes)
unfolding sextets
sextets_bound [] h = tt
sextets_bound (b0 ∷ []) h = omega arith
sextets_bound (b0 ∷ b1 ∷ []) h = omega arith
sextets_bound (b0 ∷ b1 ∷ b2 ∷ rest) h =
    (omega arith, (omega arith, (omega arith, (omega arith, sextets_bound rest h.1.1.1))))

-- The digits as the decoder sees them.
std_digit : ℕ → ℕ
std_digit i = std_char (url_digit i)

std-b64u : (bytes : List ℕ) → map std_char (b64u bytes) ≡ map std_digit (sextets bytes)
unfolding std_digit
std-b64u bytes = rw (b64u-eq-digits bytes) (go (sextets bytes))
  where
    go : (is : List ℕ) → map std_char (map url_digit is) ≡ map std_digit is
    go [] = refl
    go (i ∷ is) = rw (go is)

all_chars : (is : List ℕ) → All (λ i. i < 64) is → all is_base64_char (map std_digit is) ≡ true
unfolding std_digit
all_chars [] h = refl
all_chars (i ∷ is) h = rw (base64_char-digit i h.0) (all_chars is h.1)

strip_padding_none : (cs : Text) → all is_base64_char cs ≡ true → strip_padding cs ≡ cs
unfolding strip_padding
strip_padding_none [] h = refl
strip_padding_none (c ∷ []) h = ground arith
strip_padding_none (c ∷ d ∷ cs) h = ground (arith, strip_padding_none (d ∷ cs))

-- One round of the decoder on a digit, at each number of bits that a group of four meets.
module _ (acc i : ℕ) (rest : Text) (h : i < 64) where
  decode_zero : decode acc 0 (std_digit i ∷ rest) ≡ decode ((acc * 64 + i) % 2 ^ 32) 6 rest
  unfolding decode std_digit
  decode_zero = rw (index-digit i h)

  decode_six :
      decode acc 6 (std_digit i ∷ rest)
      ≡ ((acc * 64 + i) % 2 ^ 32 / 16 % 256) ∷ decode ((acc * 64 + i) % 2 ^ 32) 4 rest
  unfolding decode std_digit
  decode_six = rw (index-digit i h)

  decode_four :
      decode acc 4 (std_digit i ∷ rest)
      ≡ ((acc * 64 + i) % 2 ^ 32 / 4 % 256) ∷ decode ((acc * 64 + i) % 2 ^ 32) 2 rest
  unfolding decode std_digit
  decode_four = rw (index-digit i h)

  decode_two :
      decode acc 2 (std_digit i ∷ rest)
      ≡ ((acc * 64 + i) % 2 ^ 32 % 256) ∷ decode ((acc * 64 + i) % 2 ^ 32) 0 rest
  unfolding decode std_digit
  decode_two = rw (index-digit i h) (ground arith)

-- The accumulator after one more digit, and the bytes that a group of digits puts together.
abbrev push : ℕ → ℕ → ℕ
push acc i = (acc * 64 + i) % 2 ^ 32

module _ (acc b0 b1 b2 : ℕ) (h0 : b0 < 256) (h1 : b1 < 256) (h2 : b2 < 256) where
  first_byte : (x : ℕ) → x < 16 → push (push acc (b0 / 4)) (b0 % 4 * 16 + x) / 16 % 256 ≡ b0
  first_byte x lt = omega arith

  second_byte :
      (x : ℕ) → x < 4 → push (push acc (b0 % 4 * 16 + b1 / 16)) (b1 % 16 * 4 + x) / 4 % 256 ≡ b1
  second_byte x lt = omega arith

  third_byte : push (push acc (b1 % 16 * 4 + b2 / 64)) (b2 % 64) % 256 ≡ b2
  third_byte = omega arith

decode-sextets :
    (acc : ℕ) (bytes : List ℕ)
    → All IsByte bytes
    → decode acc 0 (map std_digit (sextets bytes)) ≡ bytes
unfolding sextets
decode-sextets acc [] h = unfold decode in refl
decode-sextets acc (b0 ∷ []) h =
    let a1 = push acc (b0 / 4) in
    decode_zero acc (b0 / 4) _ (omega arith)
    ∙ decode_six a1 (b0 % 4 * 16) [] (omega arith)
    ∙ unfold decode in ground (arith, first_byte acc b0 0 0 h.0 (omega arith) (omega arith) 0)
decode-sextets acc (b0 ∷ b1 ∷ []) h =
    let a1 = push acc (b0 / 4) in
    let a2 = push a1 (b0 % 4 * 16 + b1 / 16) in
    decode_zero acc (b0 / 4) _ (omega arith)
    ∙ decode_six a1 (b0 % 4 * 16 + b1 / 16) _ (omega arith)
    ∙ ap (◌∷◌ (a2 / 16 % 256)) (decode_four a2 (b1 % 16 * 4) [] (omega arith))
    ∙ unfold decode in
      ground (
        arith,
        first_byte acc b0 b1 0 h.0 h.1.0 (omega arith) (b1 / 16),
        second_byte a1 b0 b1 0 h.0 h.1.0 (omega arith) 0,
      )
decode-sextets acc (b0 ∷ b1 ∷ b2 ∷ rest) h =
    let a1 = push acc (b0 / 4) in
    let a2 = push a1 (b0 % 4 * 16 + b1 / 16) in
    let a3 = push a2 (b1 % 16 * 4 + b2 / 64) in
    let a4 = push a3 (b2 % 64) in
    decode_zero acc (b0 / 4) _ (omega arith)
    ∙ decode_six a1 (b0 % 4 * 16 + b1 / 16) _ (omega arith)
    ∙ ap (◌∷◌ (a2 / 16 % 256)) (decode_four a2 (b1 % 16 * 4 + b2 / 64) _ (omega arith))
    ∙ ap (λ r. (a2 / 16 % 256) ∷ (a3 / 4 % 256) ∷ r) (decode_two a3 (b2 % 64) _ (omega arith))
    ∙ ap (λ r. (a2 / 16 % 256) ∷ (a3 / 4 % 256) ∷ (a4 % 256) ∷ r) (decode-sextets a4 rest h.1.1.1)
    ∙ ground (
      arith,
      first_byte acc b0 b1 b2 h.0 h.1.0 h.1.1.0 (b1 / 16),
      second_byte a1 b0 b1 b2 h.0 h.1.0 h.1.1.0 (b2 / 64),
      third_byte a2 b0 b1 b2 h.0 h.1.0 h.1.1.0,
    )

-- Bytes that are encoded as base64url decode to the same bytes.
pub unb64u-b64u : (bytes : List ℕ) → All IsByte bytes → unb64u (b64u bytes) ≡ some bytes
unfolding unb64u
unb64u-b64u bytes h =
    let chars = all_chars (sextets bytes) (sextets_bound bytes h) in
    rw (std-b64u bytes, strip_padding_none _ chars, chars, decode-sextets 0 bytes h)

-- The encoding is URL-safe: it holds letters, digits, `-` and `_` only, so never a dot.
pub b64u_url_safe : (bytes : List ℕ) → All IsByte bytes → all is_url_char (b64u bytes) ≡ true
b64u_url_safe bytes h = rw (b64u-eq-digits bytes) (go (sextets bytes) (sextets_bound bytes h))
  where
    go : (is : List ℕ) → All (λ i. i < 64) is → all is_url_char (map url_digit is) ≡ true
    go [] k = refl
    go (i ∷ is) k = rw (url_char-digit i k.0) (go is k.1)
