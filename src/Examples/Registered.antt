-- ===== src/Examples/Registered.antt =====
-- A client, a session, and a code that was issued to the client.
use smart_access_gateway.Prelude.{
  ℕ, true, false, none, some, [], ◌∷◌, ok, length, ◌==◌, nat_eq, string_eq, if◌then◌else◌,
}
use smart_access_gateway.Util.Bytes.{Text, codes}
use smart_access_gateway.Util.Text.{text_Eq}
use smart_access_gateway.Util.Http.{Params}
use smart_access_gateway.Crypto.Seal.{Codec}
use smart_access_gateway.Session.{Session, Authentication, new_session}
use smart_access_gateway.Profile.{Held}
use smart_access_gateway.Clients.{Raw, Client, normalise}
use smart_access_gateway.Oauth.Transaction.{Request, Tx, new_transaction}
use smart_access_gateway.Oauth.ClientAuth.{Services}
use smart_access_gateway.Oauth.Code.{Payload, Redemption, issue_payload, issue_code}
use smart_access_gateway.Oauth.Tokens.{TokenConfig, AccessGrant, access_grant}
use smart_access_gateway.Endpoints.Token.{TokenContext, Fresh}
use smart_access_gateway.Examples.Toy.{toy_aead}

abbrev pub registration : Raw
registration = record {
  source = "env";
  client_id = codes "app";
  client_name = none;
  client_secret = none;
  client_secret_digest = none;
  redirect_uris = some (codes "app:/cb" ∷ []);
  post_logout_redirect_uris = none;
  jwks = none;
  jwks_uri = none;
  token_endpoint_auth_method = none;
  scopes = none;
  acr_values = none;
  id_token_signed_response_alg = none;
  session_scope = none;
  subject_type = none;
  sector_identifier = none;
  sanitise_plus_emails = none;
  require_pkce = some false;
  logo_uri = none;
  policy_uri = none;
  tos_uri = none;
}

abbrev pub app : Client
app = normalise registration

abbrev pub app_request : Request
app_request = record {
  client_id = codes "app";
  redirect_uri = codes "app:/cb";
  state = none;
  nonce = none;
  scope = codes "openid" ∷ [];
  response_type = codes "code";
  response_mode = codes "query";
  code_challenge = none;
  code_challenge_method = none;
  acr_values = [];
  prompt = [];
  max_age = none;
  login_hint = none;
  id_token_alg = none;
  resource = [];
}

abbrev pub person : Authentication Held
person = record {
  email_verified = some true;
  acr = "urn:sag:acr:email-otp";
  amr = none;
  auth_time = none;
  upstream = none;
  upstream_label = none;
  claims = none;
  local_identity_id = none;
  local_identity_key = none;
  local_security_version = none;
}

abbrev pub session : Session Held
session =
    new_session
      (record {
        cookie_name = codes "sag";
        scope = "shared";
        idle_ttl_seconds = 600;
        max_lifetime_seconds = 3600;
      })
      5 "s1" (codes "a@b.c") person

abbrev pub tx : Tx ℕ
tx = new_transaction 0 900 "t1" app_request

abbrev pub issued : Payload Held
issued = issue_payload 10 60 "j1" tx session (codes "sub") (codes "a@b.c")

abbrev pub issued_codec : Codec (Payload Held)
issued_codec = record {
  stringify = λ p. 1 ∷ [];
  parse = λ bytes. if length bytes == 1 then some issued else none;
  exp = λ p. some p.exp;
  iat = λ p. some p.iat;
}

abbrev pub secret : Text
secret = codes "k"

abbrev pub code : Text
code =
    issue_code toy_aead issued_codec 10 60 "j1" (7 ∷ []) secret tx session (codes "sub")
      (codes "a@b.c")

abbrev pub token_config : TokenConfig
token_config = record {
  issuer = codes "sag";
  id_token_ttl_seconds = 300;
  access_token_ttl_seconds = 300;
  profile = record { claims = []; show_picture = false };
}

abbrev pub granted : AccessGrant
granted = access_grant token_config 20 "a1" issued

abbrev pub granted_codec : Codec AccessGrant
granted_codec = record {
  stringify = λ p. 1 ∷ [];
  parse = λ bytes. if length bytes == 1 then some granted else none;
  exp = λ p. some p.exp;
  iat = λ p. some p.iat;
}

abbrev pub services : Services
services = record {
  platform = record {
    parse_header = λ bytes. none;
    parse_claims = λ bytes. none;
    utf8 = λ t. t;
    verify = λ alg jwk signature input. none;
  };
  sha256_hex = λ t. t;
  sha256_tag = λ t. "tag";
  from_utf8 = λ bytes. some bytes;
  decode_uri = λ t. some t;
  fetch_jwks = λ uri. none;
}

abbrev pub ctx : TokenContext
ctx = record {
  services = services;
  issuer = record { issuer = codes "sag"; clock_skew_seconds = 60 };
  tokens = token_config;
  secrets = secret ∷ [];
  first_secret = secret;
  aead = toy_aead;
  codes_codec = issued_codec;
  access_codec = granted_codec;
  sha256 = λ t. t;
  hash = λ t. t;
  resolve = λ id. ok (if id == codes "app" then some app else none);
  validate_local = none;
  sign = λ alg claims. ok (codes "jwt");
}

abbrev pub fresh : Fresh
fresh = record { now = 20; jti = "a1"; iv = 7 ∷ [] }

abbrev pub form : Params
form =
    ("grant_type", codes "authorization_code")
    ∷ ("client_id", codes "app")
    ∷ ("code", code)
    ∷ ("redirect_uri", codes "app:/cb")
    ∷ []

abbrev pub presented : Redemption
presented = record {
  code = code;
  client_id = codes "app";
  redirect_uri = some (codes "app:/cb");
  code_verifier = none;
}
