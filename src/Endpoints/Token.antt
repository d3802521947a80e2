-- ===== src/Endpoints/Token.antt =====
-- src/endpoints/token.js: the exchange of a code for tokens. The selection of a key and the signature
-- of `signIdToken`, and the check of a local account in its store, are arguments.
pub mod Exchange
pub mod Entitled
pub mod Issued
pub mod Once
use smart_access_gateway.Prelude.{
  ℕ, String, Bool, false, not, ◌&&◌, Option, none, some, List, [], Result, ok, err, ◌>>=◌, ◌>>◌,
  throw_if, ◌==◌, nat_eq, string_eq, if◌then◌else◌, or_default,
}
use smart_access_gateway.Util.Bytes.{Text, codes}
use smart_access_gateway.Util.Text.{text_Eq}
use smart_access_gateway.Util.Http.{Params, single}
use smart_access_gateway.Errors.{
  Failure, Thrown, known, unknown, oauth, unredirectable, thrown, oauth_error, invalid_client,
  invalid_grant, or_fail,
}
use smart_access_gateway.Store.{StateStore}
use smart_access_gateway.Crypto.Seal.{Aead, Codec}
use smart_access_gateway.Clients.{Client, credential_part}
use smart_access_gateway.Profile.{Held}
use smart_access_gateway.Oauth.ClientAuth.{
  Services, Credentials, read_credentials, require_client_id,
}
use smart_access_gateway.Oauth.ClientAuth.Verify.{Issuer, authenticate_client}
use smart_access_gateway.Oauth.Code.{Payload, Redemption, redeem_code}
use smart_access_gateway.Oauth.Tokens.{
  TokenConfig, IdClaims, AccessGrant, TokenResponse, id_token_claims, issue_access_token,
  token_response,
}

-- What the endpoint has from its context: the configuration, the platform, the resolution of
-- clients, and the local store's `validateSession` where there is such a store.
pub record TokenContext : Type 0 where
  pub services : Services
  pub issuer : Issuer
  pub tokens : TokenConfig
  pub secrets : List Text
  pub first_secret : Text
  pub aead : Aead
  pub codes_codec : Codec (Payload Held)
  pub access_codec : Codec AccessGrant
  pub sha256 : Text → Text
  pub hash : Text → Text
  pub resolve : Text → Result Thrown (Option Client)
  pub validate_local : Option (Payload Held → Bool)
  pub sign : Option Text → IdClaims → Result Thrown Text

-- The fresh values of one request: the time, the identifier of the access token and its IV.
pub record Fresh : Type 0 where
  pub now : ℕ
  pub jti : String
  pub iv : List ℕ

abbrev pub from_thrown : {A : Type 0} → Result Thrown A → Result Failure A
from_thrown (ok a) = ok a
from_thrown (err (known e)) = err (oauth e)
from_thrown (err (unknown m)) = err (thrown m)

abbrev pub refresh : Text
refresh = codes "refresh_token"

abbrev pub grant_code : Text
grant_code = codes "authorization_code"

unfoldable pub check_grant_type : Option Text → Result Failure (Unit {0})
check_grant_type given = throw_if (not (or_default given [] == grant_code)) (
    oauth (
      oauth_error "unsupported_grant_type" (
        if or_default given [] == refresh
        then "Refresh tokens are not issued here. Re-run the authorization code flow; an existing session will usually answer it without any interaction."
        else "Only the authorization_code grant is supported.")))

-- Who presents the code: the client and the credential that it presented.
pub record Caller : Type 0 where
  pub client : Client
  pub client_id : Text
  pub credentials : Credentials

unfoldable pub read_caller : TokenContext → Option Text → Params → Result Failure Caller
read_caller ctx authorization params = do
  grant_type ← single params "grant_type"
  check_grant_type grant_type
  credentials ← read_credentials ctx.services authorization params
  client_id ← require_client_id credentials
  found ← from_thrown (ctx.resolve client_id)
  client ← or_fail (invalid_client "No client is registered with that client_id here.") found
  ok (record { client = client; client_id = client_id; credentials = credentials })

-- What `redeemCode` is given.
unfoldable pub read_redemption : Params → Text → Result Failure Redemption
read_redemption params client_id = do
  given ← single params "code"
  code ← or_fail (invalid_grant "The code parameter is missing.") given
  redirect_uri ← single params "redirect_uri"
  code_verifier ← single params "code_verifier"
  ok (record {
    code = code;
    client_id = client_id;
    redirect_uri = redirect_uri;
    code_verifier = code_verifier;
  })

abbrev pub inactive : Failure
inactive = invalid_grant "The local identity for this authorization code is no longer active."

abbrev pub still_valid : Option (Payload Held → Bool) → Payload Held → Bool
still_valid none grant = false
still_valid (some validate) grant = validate grant

-- An absent or an empty identifier is no local account.
unfoldable pub check_local : Option (Payload Held → Bool) → Payload Held → Result Failure (Unit {0})
check_local validate grant = elim grant.local_identity_id [
  | none ↦ ok tt
  | some id ↦ throw_if (not (id == "") && not (still_valid validate grant)) inactive
]

unfoldable pub answer : TokenContext → Fresh → Text → Payload Held → Result Failure TokenResponse
answer ctx fresh client_id grant = do
  check_local ctx.validate_local grant
  let access_token =
      issue_access_token ctx.aead ctx.access_codec ctx.tokens fresh.now fresh.jti fresh.iv
        ctx.first_secret grant
  id_token ← from_thrown (
      ctx.sign grant.id_token_alg
        (id_token_claims ctx.tokens ctx.hash fresh.now grant client_id access_token grant.nonce))
  ok (token_response access_token id_token ctx.tokens.access_token_ttl_seconds grant.scope)
