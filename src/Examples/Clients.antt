-- ===== src/Examples/Clients.antt =====
-- Clients that authenticate: with a secret, and with an assertion that is presented twice.
use smart_access_gateway.Prelude.{◌≡◌, refl, ◌≢◌, true, none, some, [], ◌∷◌, arith, ok}
use smart_access_gateway.Prelude.Maps.{lookup}
use smart_access_gateway.Util.Bytes.{
  Text, codes, unb64u, decode, strip_padding, timing_safe_equal, diff_from,
}
use smart_access_gateway.Util.Text.{text_eq, text_Eq, split}
use smart_access_gateway.Util.Http.{Params, single, get_all}
use smart_access_gateway.Identity.{split_first}
use smart_access_gateway.Store.Memory.{empty, claim}
use smart_access_gateway.Store.Memory.Traces.{memory_state_store}
use smart_access_gateway.Store.Calls.{run}
use smart_access_gateway.Crypto.Jose.{
  Platform, ClaimSet, Jwk, text, absent, seconds, missing, decode_jwt, verify_compact, select_jwk,
  validate_claims, check_issuer, check_audience, check_exp, check_not_later, check_nonce,
  check_max_age,
}
use smart_access_gateway.Oauth.ClientAuth.{
  Services, Credentials, Client, is_basic, read_header, with_assertion, read_credentials,
}
use smart_access_gateway.Oauth.ClientAuth.Verify.{
  Issuer, check_assertion, client_jwks, check_lifetime, use_assertion, then_use,
  verify_private_key_jwt, check_secret, verify_digest, check_digest, stored_secret,
  authenticate_client, assertion_key,
}
use smart_access_gateway.Oauth.ClientAuth.Presented.{Presents, read_credentials_one}
use smart_access_gateway.Oauth.ClientAuth.Proof.{IsAuthenticated, authenticate_client_sound}
use smart_access_gateway.Oauth.ClientAuth.Replay.{verify_private_key_jwt_once}

abbrev key : Jwk
key = record { use_for = none; alg = none; kid = none; material = [] }

abbrev claims : ClaimSet
claims = record {
  iss = text (codes "app");
  sub = text (codes "app");
  aud = text (codes "sag") ∷ [];
  azp = absent;
  nonce = absent;
  jti = text (codes "j");
  exp = seconds 160;
  nbf = missing;
  iat = seconds 100;
  auth_time = missing;
}

abbrev platform : Platform
platform = record {
  parse_header = λ bytes. some (record { alg = codes "ES256"; kid = none });
  parse_claims = λ bytes. some claims;
  utf8 = λ t. t;
  verify = λ alg jwk signature input. some true;
}

abbrev services : Services
services = record {
  platform = platform;
  sha256_hex = λ t. t;
  sha256_tag = λ t. "tag";
  from_utf8 = λ bytes. some bytes;
  decode_uri = λ t. some t;
  fetch_jwks = λ uri. none;
}

abbrev issuer : Issuer
issuer = record { issuer = codes "sag"; clock_skew_seconds = 60 }

abbrev app : Client
app = record {
  client_id = codes "app";
  token_endpoint_auth_method = "private_key_jwt";
  client_secret_digest = none;
  client_secret = none;
  jwks = some (key ∷ []);
  jwks_uri = none;
}

abbrev assertion : Text
assertion = codes "QQ.QQ.QQ"

accepted_once :
    (verify_private_key_jwt services issuer 110 app (some memory_state_store) assertion (empty 9)).0
    ≡ ok claims
unfolding verify_private_key_jwt then_use use_assertion check_assertion client_jwks check_lifetime
    assertion_key decode_jwt verify_compact select_jwk validate_claims check_issuer check_audience
    check_exp check_not_later check_nonce check_max_age unb64u decode strip_padding split text_eq
    claim lookup
accepted_once = refl

verify_private_key_jwt_once_example :
    (verify_private_key_jwt services issuer 120 app (some memory_state_store) assertion (
      run memory_state_store []
        (verify_private_key_jwt services issuer 110 app
          (some memory_state_store)
          assertion
          (empty 9)).1)).0
    ≢ ok claims
verify_private_key_jwt_once_example =
    verify_private_key_jwt_once memory_state_store services issuer app 110 120 assertion []
      (empty 9) claims claims tt (omega arith) accepted_once

abbrev shop : Client
shop = record app {
  token_endpoint_auth_method = "client_secret_post";
  client_secret = some (codes "pw");
}

abbrev posted : Credentials
posted = record {
  client_id = some (codes "app");
  method = "client_secret_post";
  secret = some (codes "pw");
  assertion = none;
}

abbrev form : Params
form = ("client_id", codes "app") ∷ ("client_secret", codes "pw") ∷ []

form_read : read_credentials services none form ≡ ok posted
unfolding read_credentials read_header with_assertion single get_all is_basic
form_read = refl

read_credentials_one_example : Presents none form posted
read_credentials_one_example = read_credentials_one services none form posted form_read

shop_let_in :
    (authenticate_client services issuer 110 shop posted (some memory_state_store) (empty 9)).0
    ≡ ok "client_secret_post"
unfolding authenticate_client check_secret verify_digest check_digest stored_secret split_first
    text_eq timing_safe_equal diff_from
shop_let_in = refl

authenticate_client_sound_example :
    ("client_secret_post" ≡ shop.token_endpoint_auth_method)
    × IsAuthenticated services issuer 110 shop posted "client_secret_post"
authenticate_client_sound_example =
    authenticate_client_sound services issuer 110 shop posted (some memory_state_store) (empty 9)
      "client_secret_post" shop_let_in
