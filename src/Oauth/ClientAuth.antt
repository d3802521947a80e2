-- ===== src/Oauth/ClientAuth.antt =====
-- src/oauth/clientauth.js: the credential of a relying party at the token endpoint, and how it is
-- read from a request. The hash, the decoding of text and the fetch of a key set are parameters.
pub mod Presented
pub mod Verify
pub mod Proof
pub mod Replay
pub mod Effect
use Prim.Native.String.{◌++◌ as str_append}
use smart_access_gateway.Prelude.{
  ℕ, ◌+◌, String, Bool, false, not, Option, none, some, List, [], ◌∷◌, map, Result, ok, err, ◌>>=◌,
  ◌>>◌, throw_if, take, drop, ltb, ◌==◌, nat_eq, string_eq, if◌then◌else◌, or_default,
}
use smart_access_gateway.Util.Bytes.{Text, codes, unb64u, timing_safe_equal}
use smart_access_gateway.Util.Text.{text_Eq, split, to_lower}
use smart_access_gateway.Util.Http.{Params, single}
use smart_access_gateway.Errors.{Failure, oauth, invalid_client, from_store, or_fail}
use smart_access_gateway.Store.{StateStore, StoreError}
use smart_access_gateway.Identity.{trim, split_first}
use smart_access_gateway.Crypto.Jose.{
  Platform, Jwk, Header, Jwt, ClaimSet, ClaimOptions, TextClaim, absent, text, other_value,
  TimeClaim, seconds, missing, not_finite, is_text, decode_jwt, verify_compact, select_jwk,
  validate_claims,
}

-- What the module uses of the platform: the digests, `fromUtf8`, `decodeURIComponent` and the
-- fetch of a JWKS, each `none` where it throws.
pub record Services : Type 0 where
  pub platform : Platform
  pub sha256_hex : Text → Text
  pub sha256_tag : Text → String
  pub from_utf8 : List ℕ → Option Text
  pub decode_uri : Text → Option Text
  pub fetch_jwks : Text → Option (List Jwk)

pub record Credentials : Type 0 where
  pub client_id : Option Text
  pub method : String
  pub secret : Option Text
  pub assertion : Option Text

-- A registration: an absent or an empty method counts as the text `none`.
pub record Client : Type 0 where
  pub client_id : Text
  pub token_endpoint_auth_method : String
  pub client_secret_digest : Option Text
  pub client_secret : Option Text
  pub jwks : Option (List Jwk)
  pub jwks_uri : Option Text

-- `PRIVATE_KEY_JWT_ALGS`
abbrev pub private_key_jwt_algs : List Text
private_key_jwt_algs =
    codes "ES256"
    ∷ codes "ES384"
    ∷ codes "RS256"
    ∷ codes "PS256"
    ∷ codes "ML-DSA-44"
    ∷ codes "ML-DSA-65"
    ∷ codes "ML-DSA-87"
    ∷ []

abbrev pub bad_basic : Failure
bad_basic = invalid_client "The Authorization header is not valid HTTP Basic."

abbrev pub basic_scheme : Text
basic_scheme = codes "basic "

-- `authorization && /^basic /i.test(authorization)`
unfoldable pub is_basic : Option Text → Bool
is_basic none = false
is_basic (some header) = to_lower (take 6 header) == basic_scheme

abbrev pub url_safe : ℕ → ℕ
url_safe c = if c == b'+' then b'-' else if c == b'/' then b'_' else c

-- `unb64`
abbrev pub unb64 : Text → Option (List ℕ)
unb64 str = unb64u (map url_safe str)

abbrev pub decode_uri_or_same : Services → Text → Text
decode_uri_or_same services value = or_default (services.decode_uri value) value

-- The two halves of HTTP Basic; the first is not empty.
abbrev pub basic_halves : Services → Option (Text × Text) → Result Failure (Text × Text)
basic_halves services none = err bad_basic
basic_halves services (some ([], secret)) = err bad_basic
basic_halves services (some (c ∷ id, secret)) =
    ok (decode_uri_or_same services (c ∷ id), decode_uri_or_same services secret)

unfoldable pub decode_basic : Services → Text → Result Failure (Text × Text)
decode_basic services header = do
  bytes ← or_fail bad_basic (unb64 (trim (drop 6 header)))
  decoded ← or_fail bad_basic (services.from_utf8 bytes)
  basic_halves services (split_first b':' decoded)

abbrev pub is_other : Text → Option Text → Bool
is_other id none = false
is_other id (some given) = not (given == id)

-- The credential of the header, with the count of the credentials that it adds.
unfoldable pub read_header : Services → Option Text → Option Text → Result Failure (Credentials × ℕ)
read_header services none client_id =
    ok (record { client_id = client_id; method = "none"; secret = none; assertion = none }, 0)
read_header services (some header) client_id =
    if is_basic (some header)
    then (do
      halves ← decode_basic services header
      throw_if (is_other halves.0 client_id)
          (invalid_client "The client_id in the body does not match the Authorization header.")
      ok (
        record {
          client_id = some halves.0;
          method = "client_secret_basic";
          secret = some halves.1;
          assertion = none;
        },
        1,
      ))
    else ok (record { client_id = client_id; method = "none"; secret = none; assertion = none }, 0)

abbrev pub is_given : Text → Option Text → Bool
is_given value none = false
is_given value (some given) = given == value

abbrev pub with_secret : Option Text → Credentials × ℕ → Credentials × ℕ
with_secret none out = out
with_secret (some secret) (out, presented) =
    (record out { secret = some secret; method = "client_secret_post" }, presented + 1)

unfoldable pub with_assertion :
    Params → Option Text → Credentials × ℕ → Result Failure (Credentials × ℕ)
with_assertion params none out = ok out
with_assertion params (some assertion) (out, presented) = do
  type ← single params "client_assertion_type"
  throw_if (not (is_given (codes "urn:ietf:params:oauth:client-assertion-type:jwt-bearer") type))
      (invalid_client "Unsupported client_assertion_type.")
  ok (record out { assertion = some assertion; method = "private_key_jwt" }, presented + 1)

-- `readCredentials`
unfoldable pub read_credentials : Services → Option Text → Params → Result Failure Credentials
read_credentials services authorization params = do
  client_id ← single params "client_id"
  basic ← read_header services authorization client_id
  body_secret ← single params "client_secret"
  let posted = with_secret body_secret basic
  assertion ← single params "client_assertion"
  out ← with_assertion params assertion posted
  throw_if (ltb 1 out.1) (invalid_client "Present exactly one client credential, not several.")
  ok out.0

-- `requireClientId`
abbrev pub require_client_id : Credentials → Result Failure Text
require_client_id credentials =
    or_fail (invalid_client "No client_id was presented.") credentials.client_id
