-- ===== src/Otp.antt =====
-- src/otp.js: email one-time codes. Random bytes come in rounds, as `randomBytes` gives them; the
-- digest is that of `digestCode`, a keyed hash and so an argument.

pub mod Codes
pub mod Verify
use smart_access_gateway.Prelude.{
  ℕ, zero, suc, ◌-◌, ◌%◌, Bool, true, false, not, ◌&&◌, ◌||◌, Option, none, some, List, [], ◌∷◌,
  ◌++◌, length, get_or, keep, any, ltb, leb, ◌==◌, nat_eq, string_eq, if◌then◌else◌,
}
use smart_access_gateway.Util.Bytes.{Text, codes, timing_safe_equal}
use smart_access_gateway.Util.Text.{text_Eq, to_lower, to_upper, ends_with, split}
use smart_access_gateway.Oauth.Transaction.{OtpState}

-- `CODE_ALPHABETS`
unfoldable pub alphanumeric : Text
alphanumeric = codes "23456789ABCDEFGHJKMNPQRSTVWXYZ"

unfoldable pub numeric : Text
numeric = codes "0123456789"

-- `256 - (256 % alphabet.length)`
abbrev pub byte_limit : ℕ → ℕ
byte_limit size = 256 - 256 % size

-- One round of `generateCode`: `out` is what has been drawn, in order.
unfoldable pub draw : ℕ → Text → List ℕ → Text → Text
draw wanted alphabet [] out = out
draw wanted alphabet (byte ∷ bytes) out =
    let next = out ++ (get_or alphabet (byte % length alphabet) 0 ∷ []) in
    let skipped = draw wanted alphabet bytes out in
    let drawn = draw wanted alphabet bytes next in
    if leb (byte_limit (length alphabet)) byte
    then skipped
    else if length next == wanted
    then next
    else drawn

-- `generateCode`; `none` if the rounds given were not enough.
unfoldable pub generate_code : ℕ → Text → List (List ℕ) → Text → Option Text
generate_code wanted alphabet [] out = if ltb (length out) wanted then none else some out
generate_code wanted alphabet (round ∷ rounds) out =
    let more = generate_code wanted alphabet rounds (draw wanted alphabet round out) in
    if ltb (length out) wanted then more else some out

-- The class `[0-9A-Z]`.
abbrev pub is_code_char : ℕ → Bool
is_code_char c = leb b'0' c && leb c b'9' || leb b'A' c && leb c b'Z'

unfoldable pub normalise_code : Text → Text
unfolding to_upper
normalise_code input = keep is_code_char (to_upper input)

-- The matches of `/.{1,n}/g` joined by spaces: `room` characters still fit the group at hand.
unfoldable pub grouped : ℕ → ℕ → Text → Text
grouped size room [] = []
grouped size zero (c ∷ cs) = b' ' ∷ c ∷ grouped size (size - 1) cs
grouped size (suc room) (c ∷ cs) = c ∷ grouped size room cs

unfoldable pub format_code_for_display : Text → Text
unfolding grouped
format_code_for_display code =
    let size = if length code % 3 == 0 then 3 else 4 in grouped size size code

pub data Verdict : Type 0 where
  accepted : Verdict
  no_code expired too_many_attempts mismatch : Verdict

-- `verifyCode`: `digest` is the digest of a code for the transaction and its address.
unfoldable pub verify_code : ℕ → ℕ → (Text → Text) → Option OtpState → Text → Verdict
verify_code now max_attempts digest none submitted = no_code
verify_code now max_attempts digest (some otp) submitted =
    if length otp.digest == 0
    then no_code
    else let matches = timing_safe_equal (digest (normalise_code submitted)) otp.digest in
      if ltb otp.exp now
      then expired
      else if leb max_attempts otp.attempts
      then too_many_attempts
      else if not matches
      then mismatch
      else accepted

-- `entry.toLowerCase().replace(/^\*?\./, '')`
abbrev strip_star : Text → Text
strip_star (c ∷ d ∷ rest) =
    if c == b'*' && d == b'.' then rest else if c == b'.' then d ∷ rest else c ∷ d ∷ rest
strip_star (c ∷ []) = if c == b'.' then [] else c ∷ []
strip_star [] = []

unfoldable pub domain_entry : Text → Text
domain_entry entry = strip_star (to_lower entry)

abbrev pub domain_matches : Text → Text → Bool
domain_matches domain e = domain == e || ends_with domain (b'.' ∷ e)

-- `domainOf`: the second part of the address, in lower case; `none` for `undefined` and for ''.
unfoldable pub domain_of : Text → Option Text
domain_of email = elim (split b'@' email) [
  | [] ↦ none
  | local ∷ [] ↦ none
  | local ∷ domain ∷ rest ↦ if length domain == 0 then none else some (to_lower domain)
]

pub record OtpConfig : Type 0 where
  pub enabled : Bool
  pub allowed_domains : List Text
  pub blocked_domains : List Text

-- `otpAllowed`
unfoldable pub otp_allowed : OtpConfig → Text → Bool
otp_allowed config email = if not config.enabled then false else elim (domain_of email) [
  | none ↦ false
  | some domain ↦
      let matches = any (λ entry. domain_matches domain (domain_entry entry)) in
      if not (length config.blocked_domains == 0) && matches config.blocked_domains
      then false
      else if not (length config.allowed_domains == 0) && not (matches config.allowed_domains)
      then false
      else true
]
