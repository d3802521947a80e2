-- ===== src/Oauth/Tokens.antt =====
-- src/oauth/tokens.js: the claims of the id_token, and the sealed access token. Signing with the
-- deployment's keys and the half hash of the access token are arguments.
use smart_access_gateway.Prelude.{
  ℕ, ◌+◌, String, Bool, true, ◌&&◌, Option, none, some, List, [], ◌∷◌, Result, ok, err, includes,
  ◌==◌, nat_eq, string_eq, if◌then◌else◌,
}
use smart_access_gateway.Util.Bytes.{Text, codes}
use smart_access_gateway.Util.Text.{text_Eq, join}
use smart_access_gateway.Crypto.Seal.{SealError, Aead, Codec, seal, unseal}
use smart_access_gateway.Session.{is_true}
use smart_access_gateway.Profile.{ProfileConfig, Held, Outbound, outbound_claims}
use smart_access_gateway.Oauth.Code.{Payload}

-- `ACCESS_PURPOSE`
abbrev pub access_purpose : Text
access_purpose = codes "access"

pub record IdClaims : Type 0 where
  pub iss : Text
  pub sub : Text
  pub aud : Text
  pub iat : ℕ
  pub exp : ℕ
  pub auth_time : ℕ
  pub acr : String
  pub amr : List String
  pub sid : String
  pub nonce : Option Text
  pub email : Option Text
  pub email_verified : Bool
  pub profile : Option Outbound
  pub at_hash : Option Text

pub record TokenConfig : Type 0 where
  pub issuer : Text
  pub id_token_ttl_seconds : ℕ
  pub access_token_ttl_seconds : ℕ
  pub profile : ProfileConfig

-- The claims that the scopes of a grant disclose, `false` and `none` standing for a claim that is
-- left out.
pub record Disclosed : Type 0 where
  pub email : Option Text
  pub email_verified : Bool
  pub profile : Option Outbound

abbrev pub profile_of : ProfileConfig → Option Held → Option Outbound
profile_of config none = none
profile_of config (some held) = some (outbound_claims config held)

unfoldable pub disclose : ProfileConfig → List Text → Text → Option Bool → Option Held → Disclosed
disclose config scope email verified claims = record {
  email = if includes (codes "email") scope then some email else none;
  email_verified = includes (codes "email") scope && is_true verified;
  profile = if includes (codes "profile") scope then profile_of config claims else none;
}

abbrev pub half_hash : (Text → Text) → Text → Option Text
half_hash hash [] = none
half_hash hash (c ∷ token) = some (hash (c ∷ token))

-- `idTokenClaims`
unfoldable pub id_token_claims :
    TokenConfig → (Text → Text) → ℕ → Payload Held → Text → Text → Option Text → IdClaims
id_token_claims config hash now grant audience access_token nonce =
    let out = disclose config.profile grant.scope grant.email grant.email_verified grant.claims in
    record {
      iss = config.issuer;
      sub = grant.sub;
      aud = audience;
      iat = now;
      exp = now + config.id_token_ttl_seconds;
      auth_time = grant.auth_time;
      acr = grant.acr;
      amr = grant.amr;
      sid = grant.sid;
      nonce = nonce;
      email = out.email;
      email_verified = out.email_verified;
      profile = out.profile;
      at_hash = half_hash hash access_token;
    }

-- The payload of an access token.
pub record AccessGrant : Type 0 where
  pub v : ℕ
  pub jti : String
  pub sub : Text
  pub client_id : Text
  pub scope : List Text
  pub email : Text
  pub email_verified : Option Bool
  pub acr : String
  pub amr : List String
  pub auth_time : ℕ
  pub sid : String
  pub claims : Option Held
  pub local_identity_id : Option String
  pub local_security_version : Option ℕ
  pub iat : ℕ
  pub exp : ℕ

unfoldable pub access_grant : TokenConfig → ℕ → String → Payload Held → AccessGrant
access_grant config now jti grant = record {
  v = 1;
  jti = jti;
  sub = grant.sub;
  client_id = grant.client_id;
  scope = grant.scope;
  email = grant.email;
  email_verified = some (is_true grant.email_verified);
  acr = grant.acr;
  amr = grant.amr;
  auth_time = grant.auth_time;
  sid = grant.sid;
  claims = grant.claims;
  local_identity_id = grant.local_identity_id;
  local_security_version = grant.local_security_version;
  iat = now;
  exp = now + config.access_token_ttl_seconds;
}

-- `issueAccessToken`
unfoldable pub issue_access_token :
    Aead → Codec AccessGrant → TokenConfig → ℕ → String → List ℕ → Text → Payload Held → Text
issue_access_token aead codec config now jti iv secret grant =
    seal aead codec secret access_purpose iv (access_grant config now jti grant)

-- Tokens from before the flag existed came from a path that proves the address.
abbrev pub upgraded : AccessGrant → AccessGrant
upgraded grant = elim grant.email_verified [
  | some b ↦ grant
  | none ↦ elim grant.local_identity_id [
    | none ↦ record grant { email_verified = some true }
    | some id ↦ if id == "" then record grant { email_verified = some true } else grant
  ]
]

abbrev pub opened : Result SealError AccessGrant → Option AccessGrant
opened (err e) = none
opened (ok grant) = some (upgraded grant)

-- `readAccessToken`
unfoldable pub read_access_token :
    Aead → Codec AccessGrant → ℕ → List Text → Text → Option AccessGrant
read_access_token aead codec now secrets token =
    opened (unseal aead codec now none secrets access_purpose token)

-- `tokenResponse`
pub record TokenResponse : Type 0 where
  pub access_token : Text
  pub token_type : String
  pub expires_in : ℕ
  pub id_token : Text
  pub scope : Text

unfoldable pub token_response : Text → Text → ℕ → List Text → TokenResponse
token_response access_token id_token expires_in scope = record {
  access_token = access_token;
  token_type = "Bearer";
  expires_in = expires_in;
  id_token = id_token;
  scope = join b' ' scope;
}
