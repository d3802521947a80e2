-- ===== src/Util/Bytes.antt =====
-- src/util/bytes.js: base64url, hexadecimal and the constant-time comparison. A text is the list of
-- its UTF-16 code units, and a byte array a list of numbers below 256.
mod Digits
pub mod Base64
pub mod Compare
unfoldable pub use Digits.{Text, codes, alphabet, digit, index_of, IsByte}
use Prim.Native.Nat.{bit_or, bit_xor}
use smart_access_gateway.Prelude.{
  ℕ, ◌+◌, ◌-◌, ◌*◌, ◌/◌, ◌%◌, ◌^◌, Bool, ◌&&◌, ◌||◌, Option, none, some, List, [], ◌∷◌, map, length,
  all, leb, ◌==◌, nat_eq, string_eq, if◌then◌else◌,
}

-- `'+'` to `'-'` and `'/'` to `'_'`, and back.
abbrev pub url_char : ℕ → ℕ
url_char c = if c == b'+' then b'-' else if c == b'/' then b'_' else c

abbrev pub std_char : ℕ → ℕ
std_char c = if c == b'-' then b'+' else if c == b'_' then b'/' else c

-- The loop of `b64u`. The two halves of each `|` share no bit, so `|` is a sum.
unfoldable pub encode : List ℕ → Text
encode [] = []
encode (b0 ∷ []) = digit (b0 / 4) ∷ digit (b0 % 4 * 16) ∷ []
encode (b0 ∷ b1 ∷ []) = digit (b0 / 4) ∷ digit (b0 % 4 * 16 + b1 / 16) ∷ digit (b1 % 16 * 4) ∷ []
encode (b0 ∷ b1 ∷ b2 ∷ rest) =
    digit (b0 / 4)
    ∷ digit (b0 % 4 * 16 + b1 / 16)
    ∷ digit (b1 % 16 * 4 + b2 / 64)
    ∷ digit (b2 % 64)
    ∷ encode rest

unfoldable pub b64u : List ℕ → Text
unfolding encode
b64u bytes = map url_char (encode bytes)

-- The class `[A-Za-z0-9+/]`.
abbrev pub is_base64_char : ℕ → Bool
is_base64_char c =
    leb b'A' c && leb c b'Z'
    || leb b'a' c && leb c b'z'
    || leb b'0' c && leb c b'9'
    || c == b'+'
    || c == b'/'

-- `.replace(/=+$/, '')`
unfoldable pub strip_padding : Text → Text
strip_padding [] = []
strip_padding (c ∷ rest) = elim (strip_padding rest) [
  | [] ↦ if c == b'=' then [] else c ∷ []
  | d ∷ more ↦ c ∷ d ∷ more
]

-- The loop of `unb64u`: `acc` is an int32, kept as its bit pattern. The characters have been
-- checked, so that `indexOf` finds each of them.
unfoldable pub decode : ℕ → ℕ → Text → List ℕ
decode acc bits [] = []
decode acc bits (ch ∷ rest) =
    let acc' = (acc * 64 + index_of ch alphabet) % 2 ^ 32 in
    let emitted = (acc' / 2 ^ (bits + 6 - 8)) % 256 ∷ decode acc' (bits + 6 - 8) rest in
    let kept = decode acc' (bits + 6) rest in if leb 8 (bits + 6) then emitted else kept

-- `none` is the throw of an invalid input.
unfoldable pub unb64u : Text → Option (List ℕ)
unfolding decode strip_padding
unb64u str =
    let norm = strip_padding (map std_char str) in
    if all is_base64_char norm then some (decode 0 0 norm) else none

-- `timingSafeEqual`: the loop over `Math.max` of the lengths, with `?? 0` past an end.
unfoldable pub diff_from : ℕ → List ℕ → List ℕ → ℕ
diff_from diff [] [] = diff
diff_from diff [] (b ∷ bs) = diff_from (bit_or diff (bit_xor 0 b)) [] bs
diff_from diff (a ∷ xs) [] = diff_from (bit_or diff (bit_xor a 0)) xs []
diff_from diff (a ∷ xs) (b ∷ bs) = diff_from (bit_or diff (bit_xor a b)) xs bs

unfoldable pub timing_safe_equal : List ℕ → List ℕ → Bool
unfolding diff_from
timing_safe_equal a b = diff_from (bit_xor (length a) (length b)) a b == 0
