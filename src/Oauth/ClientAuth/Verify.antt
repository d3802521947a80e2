-- ===== src/Oauth/ClientAuth/Verify.antt =====
-- The verification half of src/oauth/clientauth.js, with `verifyDigest` of src/crypto/secrets.js.
use smart_access_gateway.Prelude.{
  ℕ, ◌+◌, ◌-◌, String, Bool, false, not, ◌&&◌, ◌||◌, Option, none, some, List, [], ◌∷◌, ◌++◌,
  Result, ok, err, ◌>>=◌, ◌>>◌, throw_if, includes, ltb, ◌==◌, nat_eq, string_eq, if◌then◌else◌,
  or_default,
}
use Prim.Native.String.{◌++◌ as str_append}
use smart_access_gateway.Util.Bytes.{Text, codes, timing_safe_equal}
use smart_access_gateway.Util.Text.{text_Eq, to_lower}
use smart_access_gateway.Errors.{Failure, oauth, invalid_client, from_store}
use smart_access_gateway.Store.{StateStore, StoreError}
use smart_access_gateway.Identity.{split_first}
use smart_access_gateway.Crypto.Jose.{
  Jwk, ClaimSet, TextClaim, text, TimeClaim, seconds, is_text, decode_jwt, verify_compact,
  select_jwk, validate_claims,
}
use smart_access_gateway.Errors.{or_fail}
use smart_access_gateway.Oauth.ClientAuth.{Services, Credentials, Client, private_key_jwt_algs}

-- `verifyDigest`: the scheme that the stored text names, and what follows it; `none` is the throw
-- of an unknown scheme.
abbrev pub digest_parts : Text → Text × Text
digest_parts stored = elim (split_first b':' stored) [
  | none ↦ (codes "plain", stored)
  | some (scheme, rest) ↦ if scheme == [] then (codes "plain", stored) else (scheme, rest)
]

unfoldable pub check_digest : (Text → Text) → Text → Text → Text → Option Bool
check_digest sha256_hex scheme expected presented =
    if scheme == codes "sha256"
    then some (
        not (expected == [])
        && timing_safe_equal (to_lower (sha256_hex presented)) (to_lower expected))
    else if scheme == codes "plain"
    then some (not (expected == []) && timing_safe_equal presented expected)
    else none

unfoldable pub verify_digest : (Text → Text) → Text → Text → Option Bool
verify_digest sha256_hex stored presented =
    let parts = digest_parts stored in check_digest sha256_hex parts.0 parts.1 presented

-- `client.clientSecretDigest || client.clientSecret`, as the argument of `verifyDigest`.
unfoldable pub stored_secret : Option Text → Option Text → Option Text
stored_secret (some (c ∷ digest)) secret = some (c ∷ digest)
stored_secret _ (some (c ∷ secret)) = some (codes "plain:" ++ (c ∷ secret))
stored_secret _ _ = none

-- What the token endpoint answers when `verifyDigest` throws, which no handler catches.
abbrev pub server_error : Failure
server_error = oauth (record {
  code = "server_error";
  description = "unsupported secret digest scheme";
  status = 500;
  redirectable = false;
})

unfoldable pub check_secret : Services → Client → Credentials → Result Failure (Unit {0})
check_secret services client credentials = do
  stored ←
      or_fail (invalid_client "This client has no secret configured.")
        (stored_secret client.client_secret_digest client.client_secret)
  good ←
      or_fail server_error
        (verify_digest services.sha256_hex stored (or_default credentials.secret []))
  throw_if (not good) (invalid_client "Client authentication failed.")

abbrev pub or_client_error : {A : Type 0} → String → Result String A → Result Failure A
or_client_error message (ok a) = ok a
or_client_error message (err e) = err (invalid_client message)

-- The key set of a client: registered, or fetched.
unfoldable pub client_jwks : Services → Client → Result Failure (List Jwk)
client_jwks services client = elim client.jwks [
  | some keys ↦ ok keys
  | none ↦ elim client.jwks_uri [
    | none ↦ err (invalid_client "This client has no keys registered.")
    | some uri ↦
        or_fail (invalid_client "Could not read the client JWKS.") (services.fetch_jwks uri)
  ]
]

pub record Issuer : Type 0 where
  pub issuer : Text
  pub clock_skew_seconds : ℕ

-- `payload.exp - payload.iat` outside zero to 300 seconds; the times are known to be finite.
unfoldable pub check_lifetime : TimeClaim → TimeClaim → Result Failure (Unit {0})
check_lifetime (seconds exp) (seconds iat) =
    throw_if (ltb exp iat || ltb 300 (exp - iat))
      (invalid_client "The client assertion lifetime must be between zero and 300 seconds.")
check_lifetime _ _ = err (invalid_client "The client assertion must carry an iat.")

-- A `jti` that is a string and not empty.
abbrev pub jti_of : TextClaim → Result Failure Text
jti_of (text (c ∷ jti)) = ok (c ∷ jti)
jti_of _ = err (invalid_client "The client assertion must carry a string jti.")

-- The checks of `verifyPrivateKeyJwt` that need no store.
unfoldable pub check_assertion : Services → Issuer → ℕ → Client → Text → Result Failure ClaimSet
check_assertion services config now client assertion = do
  jwt ←
      or_client_error "The client assertion is not a valid JWT."
        (decode_jwt services.platform assertion)
  throw_if (not (includes jwt.header.alg private_key_jwt_algs))
      (invalid_client "Unsupported client assertion algorithm.")
  jwks ← client_jwks services client
  jwk ←
      or_client_error "No registered key matches the client assertion." (select_jwk jwks jwt.header)
  payload ←
      or_client_error "The client assertion signature could not be verified."
        (verify_compact services.platform private_key_jwt_algs jwk assertion)
  or_client_error "The client assertion is not acceptable." (
      validate_claims now
        (record {
          issuer = some client.client_id;
          audience = some config.issuer;
          nonce = none;
          clock_skew = config.clock_skew_seconds;
          max_age = none;
        })
        payload)
  throw_if (not (is_text client.client_id payload.sub))
      (invalid_client "The client assertion subject must be the client id.")
  jti_of payload.jti
  check_lifetime payload.exp payload.iat
  ok payload

-- `'client-assertion:' + sha256b64u(clientId + '\0' + jti)`
unfoldable pub assertion_key : Services → Text → TextClaim → String
assertion_key services client_id (text jti) =
    str_append "client-assertion:" (services.sha256_tag (client_id ++ (0 ∷ jti)))
assertion_key services client_id _ = ""

abbrev pub seconds_of : TimeClaim → ℕ
seconds_of (seconds t) = t
seconds_of _ = 0

abbrev pub if_unused : ClaimSet → Result StoreError Bool → Result Failure ClaimSet
if_unused payload r = do
  fresh ← from_store r
  throw_if (not fresh) (invalid_client "The client assertion has already been used.")
  ok payload

module _ {S : Type 0} where
  -- The claim of the assertion; its `exp` plus the skew is not past.
  unfoldable pub use_assertion :
      Services
      → Issuer
      → ℕ
      → Client
      → Option (StateStore S)
      → ClaimSet
      → S
      → Result Failure ClaimSet × S
  use_assertion services config now client none payload s = (ok payload, s)
  use_assertion services config now client (some store) payload s =
      let (r, t) =
        store.claim now (assertion_key services client.client_id payload.jti)
          (seconds_of payload.exp + config.clock_skew_seconds - now) s in
      (if_unused payload r, t)

  unfoldable pub then_use :
      Services
      → Issuer
      → ℕ
      → Client
      → Option (StateStore S)
      → Result Failure ClaimSet
      → S
      → Result Failure ClaimSet × S
  then_use services config now client store (err e) s = (err e, s)
  then_use services config now client store (ok payload) s =
      use_assertion services config now client store payload s

  -- `verifyPrivateKeyJwt`
  unfoldable pub verify_private_key_jwt :
      Services
      → Issuer
      → ℕ
      → Client
      → Option (StateStore S)
      → Text
      → S
      → Result Failure ClaimSet × S
  verify_private_key_jwt services config now client store assertion s =
      then_use services config now client store
        (check_assertion services config now client assertion) s

  abbrev pub by_assertion : Result Failure ClaimSet × S → Result Failure String × S
  by_assertion (ok payload, s) = (ok "private_key_jwt", s)
  by_assertion (err e, s) = (err e, s)

  -- `authenticateClient`, with the method that it answers.
  unfoldable pub authenticate_client :
      Services
      → Issuer
      → ℕ
      → Client
      → Credentials
      → Option (StateStore S)
      → S
      → Result Failure String × S
  authenticate_client services config now client credentials store s =
      let registered = client.token_endpoint_auth_method in
      let asserted = by_assertion (
        verify_private_key_jwt services config now client store
          (or_default credentials.assertion []) s) in
      if registered == "none"
      then (
        (do
          throw_if (not (credentials.method == "none")) (
              invalid_client
                "This client is registered as public and must not present a credential.")
          ok "none"),
        s,
      )
      else if registered == "client_secret_basic" || registered == "client_secret_post"
      then (
        (do
          throw_if (not (credentials.method == registered))
              (invalid_client "This client must authenticate with its registered method.")
          check_secret services client credentials
          ok credentials.method),
        s,
      )
      else if registered == "private_key_jwt"
      then (if credentials.method == "private_key_jwt" then asserted else (
        err (invalid_client "This client must authenticate with a private_key_jwt assertion."),
        s,
      ))
      else (err (invalid_client "Unsupported client authentication method."), s)
