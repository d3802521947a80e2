-- ===== src/Examples/Flow.antt =====
-- A code that is issued, redeemed, and presented again, over the in-process store.
use smart_access_gateway.Prelude.Maps.{lookup}
use smart_access_gateway.Prelude.{
  ℕ, ◌≡◌, refl, ap, ◌∙◌, ◌≢◌, true, false, none, some, [], ◌∷◌, arith, ok, length, includes, ◌==◌,
  nat_eq, string_eq, if◌then◌else◌,
}
use smart_access_gateway.Util.Bytes.{Text, codes}
use smart_access_gateway.Util.Text.{text_eq, text_Eq}
use smart_access_gateway.Crypto.Seal.{Codec, unseal, is_past}
use smart_access_gateway.Store.Memory.{empty, claim}
use smart_access_gateway.Store.Memory.Traces.{memory_state_store}
use smart_access_gateway.Store.Calls.{run, has_call}
use smart_access_gateway.Session.{Session, Authentication, new_session}
use smart_access_gateway.Oauth.Transaction.{Request, Tx, new_transaction}
use smart_access_gateway.Oauth.Code.{
  Payload, Redemption, issue_payload, issue_code, redeem_code, spend, code_purpose, migrated,
  check_pkce,
}
use smart_access_gateway.Oauth.Code.Redeem.{redeem_code_sound, redeem_code_once, IsGranted}
use smart_access_gateway.Oauth.Code.Issue.{redeem_code-issue_code}
use smart_access_gateway.Examples.Toy.{toy_aead}

abbrev pub request : Request
request = record {
  client_id = codes "app";
  redirect_uri = codes "https://app/cb";
  state = none;
  nonce = none;
  scope = codes "openid" ∷ [];
  response_type = codes "code";
  response_mode = codes "query";
  code_challenge = none;
  code_challenge_method = none;
  acr_values = [];
  prompt = [];
  max_age = none;
  login_hint = none;
  id_token_alg = none;
  resource = [];
}

abbrev person : Authentication ℕ
person = record {
  email_verified = some true;
  acr = "urn:sag:acr:email-otp";
  amr = none;
  auth_time = none;
  upstream = none;
  upstream_label = none;
  claims = none;
  local_identity_id = none;
  local_identity_key = none;
  local_security_version = none;
}

abbrev pub tx : Tx ℕ
tx = new_transaction 0 900 "t1" request

abbrev session : Session ℕ
session =
    new_session
      (record {
        cookie_name = codes "sag";
        scope = "shared";
        idle_ttl_seconds = 600;
        max_lifetime_seconds = 3600;
      })
      5 "s1" (codes "a@b.c") person

abbrev issued : Payload ℕ
issued = issue_payload 10 60 "j1" tx session (codes "sub") (codes "a@b.c")

-- A codec that knows the issued payload.
abbrev issued_codec : Codec (Payload ℕ)
issued_codec = record {
  stringify = λ p. 1 ∷ [];
  parse = λ bytes. if length bytes == 1 then some issued else none;
  exp = λ p. some p.exp;
  iat = λ p. some p.iat;
}

abbrev secret : Text
secret = codes "k"

abbrev code : Text
code =
    issue_code toy_aead issued_codec 10 60 "j1" (7 ∷ []) secret tx session (codes "sub")
      (codes "a@b.c")

abbrev presented : Redemption
presented = record {
  code = code;
  client_id = codes "app";
  redirect_uri = some (codes "https://app/cb");
  code_verifier = none;
}

abbrev no_hash : Text → Text
no_hash t = t

secret_held : includes secret (secret ∷ []) ≡ true
unfolding text_eq
secret_held = refl

redirect_given : request.redirect_uri ≢ []
redirect_given e = cc

secret_given : secret ≢ []
secret_given e = cc

no_challenge : check_pkce no_hash none none ≡ ok tt
unfolding check_pkce
no_challenge = refl

redeem_code-issue_code_example :
    redeem_code toy_aead issued_codec no_hash 20
      (secret ∷ [])
      presented
      (some memory_state_store)
      (empty 100)
    ≡ spend 20 (some memory_state_store) issued (empty 100)
unfolding issue_payload new_transaction
redeem_code-issue_code_example =
    redeem_code-issue_code toy_aead issued_codec no_hash 10 60 20 "j1" (7 ∷ []) secret (secret ∷ [])
      tx session (codes "sub") (codes "a@b.c") none (some memory_state_store) (empty 100) refl refl
      (omega arith) secret_given secret_held redirect_given no_challenge (omega arith)

spent : (spend 20 (some memory_state_store) issued (empty 100)).0 ≡ ok issued
unfolding spend claim issue_payload lookup
spent = refl

redeemed :
    (redeem_code toy_aead issued_codec no_hash 20
      (secret ∷ [])
      presented
      (some memory_state_store)
      (empty 100)).0
    ≡ ok issued
redeemed = ap (λ r. r.0) redeem_code-issue_code_example ∙ spent

redeem_code_sound_example :
    (sealed : Payload ℕ) × (unseal toy_aead issued_codec 20 none
        (secret ∷ [])
        code_purpose
        presented.code
      ≡ ok sealed)
    × (issued ≡ migrated sealed)
    × (is_past 20 (issued_codec.exp sealed) ≡ false)
    × IsGranted no_hash presented issued
redeem_code_sound_example =
    redeem_code_sound toy_aead issued_codec no_hash 20 (secret ∷ []) presented
      (some memory_state_store) (empty 100) issued redeemed

redeem_code_once_example :
    (redeem_code toy_aead issued_codec no_hash 30
      (secret ∷ [])
      presented
      (some memory_state_store)
      (run memory_state_store
        (has_call 25 "x" ∷ [])
        (redeem_code toy_aead issued_codec no_hash 20
          (secret ∷ [])
          presented
          (some memory_state_store)
          (empty 100)).1)).0
    ≢ ok issued
redeem_code_once_example =
    redeem_code_once memory_state_store toy_aead issued_codec no_hash (λ p. refl) 20 30
      (secret ∷ []) presented presented (has_call 25 "x" ∷ []) (empty 100) issued issued refl
      (omega arith) (omega arith, tt) redeemed
