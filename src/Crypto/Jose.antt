-- ===== src/Crypto/Jose.antt =====
-- src/crypto/jose.js: reading and verifying a compact JWS, selecting a key, and the checks of the
-- claims. JSON, UTF-8 and the signature check of Web Crypto, with the import of the key, are
-- parameters.
pub mod Claims
use Prim.Native.String.{◌++◌ as str_append}
use smart_access_gateway.Prelude.{
  ℕ, ◌+◌, ◌-◌, String, Bool, true, false, not, ◌&&◌, ◌||◌, Option, none, some, List, [], ◌∷◌, ◌++◌,
  Result, ok, err, ◌>>=◌, ◌>>◌, throw_if, length, keep, any, find, includes, ltb, ◌==◌, nat_eq,
  string_eq,
}
use smart_access_gateway.Util.Bytes.{Text, codes, unb64u, timing_safe_equal}
use smart_access_gateway.Util.Text.{text_Eq, split}
use smart_access_gateway.Crypto.Seal.{dot}

-- A claim that is to be a string: absent or null, a string, or another value, with its truth and
-- its text.
pub data TextClaim : Type 0 where
  absent : TextClaim
  text : Text → TextClaim
  other_value : Bool → Text → TextClaim

-- A claim that is to be a number of seconds: absent, not finite, or a whole number that is not
-- negative.
pub data TimeClaim : Type 0 where
  missing : TimeClaim
  not_finite : TimeClaim
  seconds : ℕ → TimeClaim

pub record ClaimSet : Type 0 where
  pub iss : TextClaim
  pub sub : TextClaim
  pub aud : List TextClaim
  pub azp : TextClaim
  pub nonce : TextClaim
  pub jti : TextClaim
  pub exp : TimeClaim
  pub nbf : TimeClaim
  pub iat : TimeClaim
  pub auth_time : TimeClaim

pub record Header : Type 0 where
  pub alg : Text
  pub kid : Option Text

pub record Jwk : Type 0 where
  pub use_for : Option Text
  pub alg : Option Text
  pub kid : Option Text
  pub material : List ℕ

-- JSON, UTF-8 and Web Crypto; `verify` is `none` where the key cannot be imported.
pub record Platform : Type 0 where
  pub parse_header : List ℕ → Option Header
  pub parse_claims : List ℕ → Option ClaimSet
  pub utf8 : Text → List ℕ
  pub verify : (alg : Text) (jwk : Jwk) (signature input : List ℕ) → Option Bool

pub record Jwt : Type 0 where
  pub header : Header
  pub payload : ClaimSet
  pub signature : List ℕ
  pub input : List ℕ

abbrev pub or_throw : {A : Type 0} → String → Option A → Result String A
or_throw message none = err message
or_throw message (some a) = ok a

-- `ALGS`
abbrev pub known_algs : List Text
known_algs =
    codes "ES256"
    ∷ codes "ES384"
    ∷ codes "RS256"
    ∷ codes "PS256"
    ∷ codes "HS256"
    ∷ codes "ML-DSA-44"
    ∷ codes "ML-DSA-65"
    ∷ codes "ML-DSA-87"
    ∷ []

module _ (platform : Platform) where
  abbrev pub decode_parts : List Text → Result String Jwt
  decode_parts (header ∷ payload ∷ signature ∷ []) = do
    header_bytes ← or_throw "invalid base64url input" (unb64u header)
    h ← or_throw "not valid JSON" (platform.parse_header header_bytes)
    payload_bytes ← or_throw "invalid base64url input" (unb64u payload)
    claims ← or_throw "not valid JSON" (platform.parse_claims payload_bytes)
    s ← or_throw "invalid base64url input" (unb64u signature)
    ok (record {
      header = h;
      payload = claims;
      signature = s;
      input = platform.utf8 (header ++ (dot ∷ payload));
    })
  decode_parts _ = err "not a compact JWS"

  unfoldable pub decode_jwt : Text → Result String Jwt
  decode_jwt token = decode_parts (split dot token)

  -- `verifyCompact`
  unfoldable pub verify_compact : List Text → Jwk → Text → Result String ClaimSet
  verify_compact algs jwk token = do
    jwt ← decode_jwt token
    throw_if (not (includes jwt.header.alg known_algs)) "unsupported alg"
    throw_if (not (includes jwt.header.alg algs)) "alg not permitted here"
    good ←
        or_throw "the key cannot be imported"
          (platform.verify jwt.header.alg jwk jwt.signature jwt.input)
    throw_if (not good) "signature verification failed"
    ok jwt.payload

-- A property that is absent, empty or equal to a value.
abbrev pub is_unset_or : Text → Option Text → Bool
is_unset_or value none = true
is_unset_or value (some t) = t == [] || t == value

abbrev pub has_kid : Text → Jwk → Bool
has_kid kid jwk = elim jwk.kid [ none ↦ false | some k ↦ k == kid ]

abbrev pub only_key : List Jwk → Result String Jwk
only_key (k ∷ []) = ok k
only_key _ = err "no matching key in JWKS"

abbrev pub select_by_kid : List Jwk → Option Text → Result String Jwk
select_by_kid keys none = only_key keys
select_by_kid keys (some []) = only_key keys
select_by_kid keys (some (c ∷ kid)) =
    or_throw "no matching key in JWKS" (find (has_kid (c ∷ kid)) keys)

-- `selectJwk`
unfoldable pub select_jwk : List Jwk → Header → Result String Jwk
select_jwk keys header =
    select_by_kid
      (keep (λ k. is_unset_or (codes "sig") k.use_for && is_unset_or header.alg k.alg) keys)
      header.kid

pub record ClaimOptions : Type 0 where
  pub issuer : Option Text
  pub audience : Option Text
  pub nonce : Option Text
  pub clock_skew : ℕ
  pub max_age : Option ℕ

-- `claim === value`
abbrev pub is_text : Text → TextClaim → Bool
is_text value (text t) = t == value
is_text value absent = false
is_text value (other_value truth t) = false

abbrev pub is_truthy : TextClaim → Bool
is_truthy (text t) = not (t == [])
is_truthy absent = false
is_truthy (other_value truth t) = truth

-- `String(claim ?? '')`
abbrev pub to_text : TextClaim → Text
to_text (text t) = t
to_text absent = []
to_text (other_value truth t) = t

unfoldable pub check_issuer : Option Text → ClaimSet → Result String (Unit {0})
check_issuer none claims = ok tt
check_issuer (some []) claims = ok tt
check_issuer (some (c ∷ issuer)) claims =
    throw_if (not (is_text (c ∷ issuer) claims.iss)) "unexpected issuer"

unfoldable pub check_audience : Option Text → ClaimSet → Result String (Unit {0})
check_audience none claims = ok tt
check_audience (some []) claims = ok tt
check_audience (some (c ∷ audience)) claims = do
  throw_if (not (any (is_text (c ∷ audience)) claims.aud)) "token audience does not include it"
  throw_if
      (ltb 1 (length claims.aud) && is_truthy claims.azp && not (is_text (c ∷ audience) claims.azp))
      "unexpected azp"

unfoldable pub check_exp : ℕ → ℕ → TimeClaim → Result String (Unit {0})
check_exp now skew (seconds exp) = throw_if (ltb (exp + skew) now) "token expired"
check_exp now skew missing = err "token expired"
check_exp now skew not_finite = err "token expired"

-- The checks of `nbf` and of `iat`: `claim - clockSkew > now`.
unfoldable pub check_not_later : String → String → ℕ → ℕ → TimeClaim → Result String (Unit {0})
check_not_later invalid later now skew missing = ok tt
check_not_later invalid later now skew not_finite = err invalid
check_not_later invalid later now skew (seconds t) = throw_if (ltb now (t - skew)) later

unfoldable pub check_nonce : Option Text → TextClaim → Result String (Unit {0})
check_nonce none claim = ok tt
check_nonce (some nonce) claim =
    throw_if (not (timing_safe_equal (to_text claim) nonce)) "nonce mismatch"

unfoldable pub check_max_age : Option ℕ → ℕ → ℕ → TimeClaim → Result String (Unit {0})
check_max_age none now skew claim = ok tt
check_max_age (some age) now skew (seconds t) =
    throw_if (ltb (t + age + skew) now) "authentication too old for max_age"
check_max_age (some age) now skew missing = err "auth_time required when max_age is requested"
check_max_age (some age) now skew not_finite = err "auth_time required when max_age is requested"

-- `validateClaims`
unfoldable pub validate_claims : ℕ → ClaimOptions → ClaimSet → Result String (Unit {0})
validate_claims now options claims = do
  check_issuer options.issuer claims
  check_audience options.audience claims
  check_exp now options.clock_skew claims.exp
  check_not_later "invalid nbf" "token not yet valid" now options.clock_skew claims.nbf
  check_not_later "invalid iat" "token issued in the future" now options.clock_skew claims.iat
  check_nonce options.nonce claims.nonce
  check_max_age options.max_age now options.clock_skew claims.auth_time
