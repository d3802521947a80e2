-- ===== src/Totp.antt =====
-- src/local-identities/totp.js: base32 and time-based one-time passwords. The HMAC of Web Crypto is
-- an argument.
pub mod Verify
use smart_access_gateway.Prelude.{
  ℕ, zero, suc, ◌+◌, ◌-◌, ◌*◌, ◌/◌, ◌%◌, ◌^◌, max, String, Bool, true, not, ◌&&◌, ◌||◌, Option,
  none, some, List, [], ◌∷◌, ◌++◌, Result, ok, err, ◌>>=◌, ◌>>◌, throw_if, length, get_or, keep,
  all, ltb, leb, ◌==◌, nat_eq, string_eq, if◌then◌else◌,
}
use smart_access_gateway.Util.Bytes.{Text, codes, timing_safe_equal, index_of}
use smart_access_gateway.Util.Text.{text_Eq, to_upper}
use smart_access_gateway.Identity.{is_space}

abbrev pub base32 : Text
base32 = codes "ABCDEFGHIJKLMNOPQRSTUVWXYZ234567"

-- The class `[A-Z2-7]`.
abbrev pub is_base32_char : ℕ → Bool
is_base32_char c = leb b'A' c && leb c b'Z' || leb b'2' c && leb c b'7'

-- `.replace(/=+$/, '')`
unfoldable pub strip_equals : Text → Text
strip_equals [] = []
strip_equals (c ∷ rest) = elim (strip_equals rest) [
  | [] ↦ if c == b'=' then [] else c ∷ []
  | d ∷ more ↦ c ∷ d ∷ more
]

-- The loop of `decodeBase32`: `acc` is an int32, kept as its bit pattern.
unfoldable pub decode_from : ℕ → ℕ → Text → List ℕ
decode_from acc bits [] = []
decode_from acc bits (ch ∷ rest) =
    let acc' = (acc * 32 + index_of ch base32) % 2 ^ 32 in
    let emitted = (acc' / 2 ^ (bits + 5 - 8)) % 256 ∷ decode_from acc' (bits + 5 - 8) rest in
    let kept = decode_from acc' (bits + 5) rest in if leb 8 (bits + 5) then emitted else kept

unfoldable pub decode_base32 : Text → Result String (List ℕ)
decode_base32 value =
    let text = strip_equals (keep (λ c. not (c == b' ') && not (c == b'-')) (to_upper value)) in
    let bytes = decode_from 0 0 text in
    do
      throw_if (text == [] || not (all is_base32_char text)) "invalid base32 secret"
      throw_if (ltb (length bytes) 10) "TOTP secret must contain at least 80 bits"
      ok bytes

abbrev pub char_of : ℕ → ℕ
char_of n = get_or base32 (n % 32) 0

-- The loop of `encodeBase32`: at most four bits are left over, so that a byte emits one or two
-- characters.
unfoldable pub encode_from : ℕ → ℕ → List ℕ → Text
encode_from acc bits [] = if ltb 0 bits then char_of (acc * 2 ^ (5 - bits)) ∷ [] else []
encode_from acc bits (byte ∷ rest) =
    let acc' = (acc * 256 + byte) % 2 ^ 32 in
    let two =
      char_of (acc' / 2 ^ (bits + 8 - 5))
      ∷ char_of (acc' / 2 ^ (bits + 8 - 10))
      ∷ encode_from acc' (bits + 8 - 10) rest in
    let one = char_of (acc' / 2 ^ (bits + 8 - 5)) ∷ encode_from acc' (bits + 8 - 5) rest in
    if leb 10 (bits + 8) then two else one

unfoldable pub encode_base32 : List ℕ → Text
encode_base32 bytes = encode_from 0 0 bytes

-- `setBigUint64(0, step, false)`: the last `n` bytes, the most significant first.
unfoldable pub counter_bytes : ℕ → ℕ → List ℕ
counter_bytes zero step = []
counter_bytes (suc n) step = (step / 2 ^ (8 * n)) % 256 ∷ counter_bytes n step

-- `hashName`
unfoldable pub hash_name : Text → Result String String
hash_name algorithm =
    let value = keep (λ c. not (c == b'-')) (to_upper algorithm) in
    if value == codes "SHA1"
    then ok "SHA-1"
    else if value == codes "SHA256"
    then ok "SHA-256"
    else if value == codes "SHA512"
    then ok "SHA-512"
    else err "unsupported TOTP algorithm"

-- `String(n).padStart(k, '0')` for a number below `10 ** k`.
unfoldable pub padded : ℕ → ℕ → Text
padded zero n = []
padded (suc k) n = padded k (n / 10) ++ ((b'0' + n % 10) ∷ [])

-- The dynamic truncation: the parts share no bit, so `|` is a sum.
unfoldable pub truncated : List ℕ → ℕ
truncated digest =
    let offset = get_or digest (length digest - 1) 0 % 16 in
    (get_or digest offset 0 % 128) * 2 ^ 24
    + get_or digest (offset + 1) 0 * 2 ^ 16
    + get_or digest (offset + 2) 0 * 2 ^ 8
    + get_or digest (offset + 3) 0

pub record Attempt : Type 0 where
  pub secret : Text
  pub code : Text
  pub now : ℕ
  pub algorithm : Text
  pub digits : ℕ
  pub period : ℕ
  pub skew : ℕ
  pub last_used_step : Option ℕ

abbrev pub is_unused : Option ℕ → ℕ → Bool
is_unused none step = true
is_unused (some last) step = ltb last step

abbrev pub greater : Option ℕ → ℕ → ℕ
greater none step = step
greater (some m) step = max m step

-- `.replace(/[\s-]/g, '')`
abbrev pub presented_of : Text → Text
presented_of code = keep (λ c. not (is_space c) && not (c == b'-')) code

abbrev pub is_digit : ℕ → Bool
is_digit c = leb b'0' c && leb c b'9'

module _ (hmac : String → (key message : List ℕ) → List ℕ) where
  -- `totpForStep`, for a secret in base32.
  unfoldable pub totp_for_step : Text → ℕ → Text → ℕ → Result String Text
  totp_for_step secret step algorithm digits = do
    throw_if (not (digits == 6 || digits == 8)) "TOTP digits must be 6 or 8"
    bytes ← decode_base32 secret
    name ← hash_name algorithm
    ok (padded digits (truncated (hmac name bytes (counter_bytes 8 step)) % 10 ^ digits))

  -- One candidate of the loop.
  unfoldable pub try_step : Attempt → Text → ℕ → Option ℕ → Result String (Option ℕ)
  try_step attempt presented step matched = do
    expected ← totp_for_step attempt.secret step attempt.algorithm attempt.digits
    ok (
        if timing_safe_equal expected presented && is_unused attempt.last_used_step step
        then some (greater matched step)
        else matched)

  -- The last `n` candidates, up to `last`, of which those below zero are passed over.
  unfoldable pub try_steps : Attempt → Text → ℕ → ℕ → Option ℕ → Result String (Option ℕ)
  try_steps attempt presented zero last matched = ok matched
  try_steps attempt presented (suc n) last matched =
      let skipped = try_steps attempt presented n last matched in
      let tried =
        try_step attempt presented (last - n) matched >>= try_steps attempt presented n last in
      if ltb last n then skipped else tried

  -- `verifyTotp`, at the time `now` in milliseconds; the answer is the step of the code.
  unfoldable pub verify_totp : Attempt → Result String (Option ℕ)
  verify_totp attempt =
      let presented = presented_of attempt.code in
      if not (length presented == attempt.digits) || not (all is_digit presented) || presented == []
      then ok none
      else (do
        throw_if (ltb attempt.period 15 || ltb 120 attempt.period) "invalid TOTP period"
        throw_if (ltb 5 attempt.skew) "invalid TOTP skew"
        try_steps attempt presented (attempt.skew + attempt.skew + 1)
            (attempt.now / 1000 / attempt.period + attempt.skew) none)
