-- ===== src/Endpoints/Token/Exchange.antt =====
-- `handleToken`, in its order: the caller, the credential, the code, the account, the tokens.
use smart_access_gateway.Prelude.{Option}
use smart_access_gateway.Util.Bytes.{Text}
use smart_access_gateway.Util.Http.{Params}
use smart_access_gateway.Store.{StateStore}
use smart_access_gateway.Profile.{Held}
use smart_access_gateway.Clients.{credential_part}
use smart_access_gateway.Oauth.ClientAuth.Verify.{authenticate_client}
use smart_access_gateway.Oauth.Code.{Payload, Redemption, redeem_code}
use smart_access_gateway.Oauth.Tokens.{TokenResponse}
use smart_access_gateway.Endpoints.Handler.{Handler, from_result, ◌>>=◌}
use smart_access_gateway.Endpoints.Token.{
  TokenContext, Fresh, Caller, read_caller, read_redemption, answer,
}

module _ {S : Type 0} (ctx : TokenContext) (store : Option (StateStore S)) (fresh : Fresh) where
  unfoldable pub redeem : Redemption → Handler S (Payload Held)
  redeem args = redeem_code ctx.aead ctx.codes_codec ctx.sha256 fresh.now ctx.secrets args store

  unfoldable pub exchange : Params → Caller → Handler S TokenResponse
  exchange params caller = do
    args ← from_result (read_redemption params caller.client_id)
    grant ← redeem args
    from_result (answer ctx fresh caller.client_id grant)

  unfoldable pub handle_token : Option Text → Params → Handler S TokenResponse
  handle_token authorization params = do
    caller ← from_result (read_caller ctx authorization params)
    method ←
        authenticate_client ctx.services ctx.issuer fresh.now (credential_part caller.client)
          caller.credentials store
    exchange params caller
