-- ===== src/Examples/Tokens.antt =====
-- A code that is exchanged for tokens, and the claims behind the access token.
use smart_access_gateway.Prelude.{
  ◌≡◌, refl, ap, ◌∙◌, ◌≢◌, true, false, none, some, [], ◌∷◌, arith, ok, length, includes, ◌==◌,
  nat_eq, string_eq, if◌then◌else◌,
}
use smart_access_gateway.Prelude.Maps.{lookup}
use smart_access_gateway.Util.Bytes.{Text, codes}
use smart_access_gateway.Util.Text.{join, text_eq, text_Eq}
use smart_access_gateway.Util.Http.{get_all, single}
use smart_access_gateway.Crypto.Seal.{Codec}
use smart_access_gateway.Store.Memory.{empty, claim, MemoryStore}
use smart_access_gateway.Store.Memory.Traces.{memory_state_store}
use smart_access_gateway.Session.{new_session}
use smart_access_gateway.Profile.{kept_value, relay, Held}
use smart_access_gateway.Clients.{normalise}
use smart_access_gateway.Oauth.Transaction.{new_transaction}
use smart_access_gateway.Oauth.ClientAuth.{with_assertion, read_header, read_credentials}
use smart_access_gateway.Oauth.Code.{
  Payload, issue_payload, issue_code, redeem_code, spend, check_pkce,
}
use smart_access_gateway.Oauth.Code.Issue.{redeem_code-issue_code}
use smart_access_gateway.Oauth.Tokens.{
  token_response, id_token_claims, TokenResponse, access_grant, issue_access_token,
}
use smart_access_gateway.Endpoints.Token.{
  check_local, check_grant_type, answer, read_redemption, read_caller, Caller,
}
use smart_access_gateway.Endpoints.Token.Exchange.{exchange, handle_token, redeem}
use smart_access_gateway.Examples.Toy.{toy_aead}
use smart_access_gateway.Prelude.{◌≤◌, All}
use smart_access_gateway.Store.Memory.{MemoryStore}
use smart_access_gateway.Store.Calls.{run}
use smart_access_gateway.Crypto.Jose.{TextClaim, text, absent}
use smart_access_gateway.Clients.{credential_part}
use smart_access_gateway.Profile.{ProfileConfig, profile_claims, permitted, relayed_claims}
use smart_access_gateway.Profile.Relayed.{IsCarried, relayed_claims_sound}
use smart_access_gateway.Oauth.ClientAuth.Verify.{authenticate_client}
use smart_access_gateway.Oauth.Tokens.{id_token_claims}
use smart_access_gateway.Endpoints.Token.{Caller, answer}
use smart_access_gateway.Endpoints.Token.Exchange.{handle_token}
use smart_access_gateway.Endpoints.Token.Entitled.{IsEntitled}
use smart_access_gateway.Endpoints.Token.Issued.{handle_token_sound}
use smart_access_gateway.Endpoints.Token.Once.{handle_token_once}
use smart_access_gateway.Endpoints.Userinfo.{claims, answer_token}
use smart_access_gateway.Endpoints.Userinfo.Agree.{shared_claims, answer_token-id_token_claims}
use smart_access_gateway.Examples.Registered.{
  app, app_request, session, tx, issued, issued_codec, secret, token_config, granted_codec,
  services, ctx, fresh, form, presented,
}

no_challenge : check_pkce (λ t. t) none none ≡ ok tt
unfolding check_pkce
no_challenge = refl

secret_held : includes secret (secret ∷ []) ≡ true
unfolding text_eq
secret_held = refl

secret_given : secret ≢ []
secret_given e = cc

redirect_given : app_request.redirect_uri ≢ []
redirect_given e = cc

decided :
    redeem_code toy_aead issued_codec
      (λ t. t)
      20
      (secret ∷ [])
      presented
      (some memory_state_store)
      (empty 100)
    ≡ spend 20 (some memory_state_store) issued (empty 100)
unfolding issue_payload new_transaction
decided =
    redeem_code-issue_code toy_aead issued_codec (λ t. t) 10 60 20 "j1" (7 ∷ []) secret
      (secret ∷ []) tx session (codes "sub") (codes "a@b.c") none (some memory_state_store)
      (empty 100) refl refl (omega arith) secret_given secret_held redirect_given no_challenge
      (omega arith)

spent : (spend 20 (some memory_state_store) issued (empty 100)).0 ≡ ok issued
unfolding spend claim issue_payload lookup
spent = refl

redeemed : (redeem ctx (some memory_state_store) fresh presented (empty 100)).0 ≡ ok issued
unfolding redeem
redeemed = ap (λ r. r.0) decided ∙ spent

abbrev response : TokenResponse
response = record {
  access_token =
      issue_access_token toy_aead granted_codec token_config 20 "a1" (7 ∷ []) secret issued;
  token_type = "Bearer";
  expires_in = 300;
  id_token = codes "jwt";
  scope = codes "openid";
}

abbrev caller : Caller
caller = record {
  client = app;
  client_id = codes "app";
  credentials = record {
    client_id = some (codes "app");
    method = "none";
    secret = none;
    assertion = none;
  };
}

called : read_caller ctx none form ≡ ok caller
unfolding read_caller check_grant_type read_credentials read_header with_assertion single get_all
    text_eq normalise
called = refl

asked : read_redemption form (codes "app") ≡ ok presented
unfolding read_redemption single get_all text_eq issue_code smart_access_gateway.Crypto.Seal.seal
asked = refl

authenticated :
    authenticate_client services ctx.issuer 20
      (credential_part app)
      caller.credentials
      (some memory_state_store)
      (empty 100)
    ≡ (ok "none", empty 100)
unfolding authenticate_client normalise text_eq
authenticated = refl

answers : answer ctx fresh (codes "app") issued ≡ ok response
unfolding answer check_local id_token_claims token_response join issue_payload new_transaction
    new_session
answers = refl

answered : (handle_token ctx (some memory_state_store) fresh none form (empty 100)).0 ≡ ok response
unfolding handle_token exchange
answered = rw called (rw authenticated (rw asked (rw redeemed answers)))

handle_token_sound_example :
    (who : Caller) × (grant : Payload Held) × (answer ctx fresh who.client_id grant ≡ ok response)
    × IsEntitled ctx fresh none form who grant
handle_token_sound_example =
    handle_token_sound ctx (some memory_state_store) fresh none form (empty 100) response answered

abbrev after : MemoryStore
after = (handle_token ctx (some memory_state_store) fresh none form (empty 100)).1

handle_token_once_example :
    (handle_token ctx (some memory_state_store) fresh none form (run memory_state_store [] after)).0
    ≢ ok response
handle_token_once_example =
    handle_token_once ctx memory_state_store (λ p. refl) fresh fresh none none form form []
      (empty 100) response response refl (omega arith) tt answered

answer_token-id_token_claims_example :
    answer_token toy_aead granted_codec token_config.profile 30
      (secret ∷ [])
      (some (issue_access_token toy_aead granted_codec token_config 20 "a1" (7 ∷ []) secret issued))
    ≡ claims (
        shared_claims (
          id_token_claims token_config
            (λ t. t)
            20
            issued
            (codes "app")
            (issue_access_token toy_aead granted_codec token_config 20 "a1" (7 ∷ []) secret issued)
            none))
unfolding access_grant
answer_token-id_token_claims_example =
    answer_token-id_token_claims toy_aead granted_codec token_config (λ t. t) 20 30 "a1" (7 ∷ [])
      secret (secret ∷ []) issued (codes "app") none refl refl (omega arith, tt) secret_given
      secret_held (omega arith)

abbrev open_profile : ProfileConfig
open_profile = record { claims = profile_claims; show_picture = true }

abbrev told : Text → TextClaim
told claim = if claim == codes "name" then text (codes "Ann") else absent

abbrev held : Held
held = record {
  fields = (codes "name", codes "Ann") ∷ [];
  name_inferred = false;
  upstream_acr = none;
}

relays : relayed_claims open_profile told none ≡ some held
unfolding relayed_claims relay permitted kept_value text_eq
relays = refl

relayed_claims_sound_example :
    All (IsCarried open_profile told) held.fields
    × ((a : Text) → held.upstream_acr ≡ some a → length a ≤ 128)
relayed_claims_sound_example = relayed_claims_sound open_profile told none held relays
