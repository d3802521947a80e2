-- ===== src/Endpoints/Token/Issued.antt =====
-- When the token endpoint answers with tokens.
use mathlib.Core.Path.{subst}
use smart_access_gateway.Prelude.{String, ◌≡◌, ◌∙◌, Option, ok}
use smart_access_gateway.Util.Bytes.{Text}
use smart_access_gateway.Util.Text.{text_Eq}
use smart_access_gateway.Util.Http.{Params}
use smart_access_gateway.Store.{StateStore}
use smart_access_gateway.Profile.{Held}
use smart_access_gateway.Clients.{credential_part}
use smart_access_gateway.Oauth.ClientAuth.Verify.{authenticate_client}
use smart_access_gateway.Oauth.ClientAuth.Proof.{IsAuthenticated, authenticate_client_sound}
use smart_access_gateway.Oauth.Code.{Payload, Redemption}
use smart_access_gateway.Oauth.Code.Redeem.{redeem_code_sound}
use smart_access_gateway.Oauth.Tokens.{TokenResponse}
use smart_access_gateway.Endpoints.Handler.{>>=-eq-ok as handler-eq-ok, from_result}
use smart_access_gateway.Endpoints.Token.{
  TokenContext, Fresh, Caller, read_caller, read_redemption, answer,
}
use smart_access_gateway.Endpoints.Token.Entitled.{
  IsEntitled, read_caller_sound, check_local_sound, answer-local, read_redemption-client,
  read_redemption-code,
}
use smart_access_gateway.Endpoints.Token.Exchange.{redeem, exchange, handle_token}

module _ {S : Type 0} (ctx : TokenContext) where
  -- The four steps of a request that is answered with tokens.
  pub record Steps (store : Option (StateStore S)) (fresh : Fresh) (authorization : Option Text)
      (params : Params) (s : S) (response : TokenResponse) : Type 0 where
    pub caller : Caller
    pub method : String
    pub args : Redemption
    pub grant : Payload Held
    pub called : read_caller ctx authorization params ≡ ok caller
    pub authenticated :
        (authenticate_client ctx.services ctx.issuer fresh.now
          (credential_part caller.client)
          caller.credentials
          store
          s).0
        ≡ ok method
    pub asked : read_redemption params caller.client_id ≡ ok args
    pub redeemed :
        (redeem ctx store fresh args
          (authenticate_client ctx.services ctx.issuer fresh.now
            (credential_part caller.client)
            caller.credentials
            store
            s).1).0
        ≡ ok grant
    pub answered : answer ctx fresh caller.client_id grant ≡ ok response
    pub after :
        (handle_token ctx store fresh authorization params s).1
        ≡ (redeem ctx store fresh args
            (authenticate_client ctx.services ctx.issuer fresh.now
              (credential_part caller.client)
              caller.credentials
              store
              s).1).1

  pub handle_token-Steps :
      (store : Option (StateStore S)) (fresh : Fresh) (authorization : Option Text)
      (params : Params) (s : S) (response : TokenResponse)
      → (handle_token ctx store fresh authorization params s).0 ≡ ok response
      → Steps store fresh authorization params s response
  unfolding handle_token exchange
  handle_token-Steps store fresh authorization params s response h =
      let (caller, called, h1, e1) =
        handler-eq-ok (from_result (read_caller ctx authorization params)) _ s h in
      let auth =
        authenticate_client ctx.services ctx.issuer fresh.now (credential_part caller.client)
          caller.credentials store in
      let (method, authenticated, h2, e2) = handler-eq-ok auth _ s h1 in
      let (args, asked, h3, e3) =
        handler-eq-ok (from_result (read_redemption params caller.client_id)) _ (auth s).1 h2 in
      let (grant, redeemed, answered, e4) =
        handler-eq-ok (redeem ctx store fresh args) _ (auth s).1 h3 in
      record {
        caller = caller;
        method = method;
        args = args;
        grant = grant;
        called = called;
        authenticated = authenticated;
        asked = asked;
        redeemed = redeemed;
        answered = answered;
        after = e1 ∙ e2 ∙ e3 ∙ e4;
      }

  -- Tokens are issued only for the authorization_code grant, to a client that is known and that has
  -- proved itself, by its registered method, with the credential that the request itself carries (a
  -- public client has no credential, and the request carries none).
  -- The request's code parameter opens as an authorisation code that has not expired, and the tokens
  -- are those of its grant, which is bound to that very client, to the request's redirect URI and,
  -- where there is a challenge, to its verifier. Where the sign-in was on a local account, that
  -- account's record still validates it.
  pub handle_token_sound :
      (store : Option (StateStore S)) (fresh : Fresh) (authorization : Option Text)
      (params : Params) (s : S) (response : TokenResponse)
      → (handle_token ctx store fresh authorization params s).0 ≡ ok response
      → (caller : Caller) × (grant : Payload Held) × (answer ctx fresh caller.client_id grant
          ≡ ok response)
        × IsEntitled ctx fresh authorization params caller grant
  unfolding redeem
  handle_token_sound store fresh authorization params s response h =
      let steps = handle_token-Steps store fresh authorization params s response h in
      let caller = steps.caller in
      let (presented, identified, resolved, typed) =
        read_caller_sound ctx authorization params caller steps.called in
      let (registered, credential) =
        authenticate_client_sound ctx.services ctx.issuer fresh.now (credential_part caller.client)
          caller.credentials store s steps.method steps.authenticated in
      let (sealed, opened, same, live, granted) =
        redeem_code_sound ctx.aead ctx.codes_codec ctx.sha256 fresh.now ctx.secrets steps.args store
          _ steps.grant steps.redeemed in
      (
        caller,
        steps.grant,
        steps.answered,
        record {
          presented = presented;
          identified = identified;
          args = steps.args;
          asked = steps.asked;
          code_given = read_redemption-code params caller.client_id steps.args steps.asked;
          sealed = sealed;
          opened = opened;
          live = live;
          issued = same;
          granted = granted;
          known_client = resolved;
          code_flow = typed;
          credential =
              subst
                (IsAuthenticated ctx.services ctx.issuer fresh.now (credential_part caller.client)
                  caller.credentials)
                registered credential;
          bound =
              granted.client
              ∙ read_redemption-client params caller.client_id steps.args steps.asked;
          active = λ id e ne.
              check_local_sound ctx steps.grant id
                (answer-local ctx fresh caller.client_id steps.grant response steps.answered) e ne;
        },
      )
