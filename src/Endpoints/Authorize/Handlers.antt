-- ===== src/Endpoints/Authorize/Handlers.antt =====
-- The handlers, each from the request to the answer.
use smart_access_gateway.Prelude.{
  Bool, true, false, not, ◌&&◌, Option, none, some, List, [], ◌∷◌, Result, ok, err, find, ◌==◌,
  nat_eq, string_eq, if◌then◌else◌, or_default,
}
use smart_access_gateway.Util.Bytes.{Text, codes}
use smart_access_gateway.Util.Text.{text_Eq}
use smart_access_gateway.Util.Http.{Params, get_all, single}
use smart_access_gateway.Errors.{Failure, oauth, unredirectable}
use smart_access_gateway.Crypto.Seal.{unseal}
use smart_access_gateway.Identity.{normalise_email, looks_like_email}
use smart_access_gateway.Acr.{requires_federation}
use smart_access_gateway.Clients.{Client}
use smart_access_gateway.Oauth.Transaction.{new_transaction, open_transaction, without_otp, expired}
use smart_access_gateway.Oauth.Request.{
  RequestServices, RequestConfig, Parsed, parse_authorization_request,
}
use smart_access_gateway.Endpoints.Handler.{Handler, from_result, ◌>>=◌}
use smart_access_gateway.Endpoints.Token.{from_thrown}
use smart_access_gateway.Endpoints.Authorize.{
  Transaction, Upstream, Answer, error_page, start_again, FlowConfig, Platform, Moment,
}
use smart_access_gateway.Endpoints.Authorize.Complete.{
  failure_response, render_email, valid_session, session_of, decide, continue_with_session,
}
use smart_access_gateway.Endpoints.Authorize.Codes.{
  address_of, send_otp, request_otp, resend_otp, submit_otp,
}
use smart_access_gateway.Endpoints.Authorize.Route.{start_upstream, route}

-- `failureResponse(ctx, err)` without a target, for whatever was thrown.
abbrev pub failure_page : Failure → Answer
failure_page (oauth e) = error_page e.status
failure_page (unredirectable e) = error_page e.status
failure_page other = error_page 400

abbrev pub email_given : Option Text → Option Text
email_given none = none
email_given (some raw) = elim (normalise_email raw) [
  | none ↦ none
  | some address ↦ if looks_like_email address then some address else none
]

-- `params.get(name) ?? ''`
abbrev pub first_or_empty : List Text → Text
first_or_empty [] = []
first_or_empty (value ∷ rest) = value

abbrev pub is_given : Option Text → Bool
is_given none = false
is_given (some value) = true

-- A transaction that a form brought back, with its client.
pub record Loaded : Type 0 where
  pub tx : Transaction
  pub client : Client

-- A step of a computation that reads no store.
abbrev pub then_ok : {A B : Type 0} → Result Failure A → (A → Result Failure B) → Result Failure B
then_ok (ok a) next = next a
then_ok (err f) next = err f

module _ {S : Type 0} (services : RequestServices) (requests : RequestConfig) (config : FlowConfig)
    (platform : Platform S) (moment : Moment) where
  -- The catch clause of `handleAuthorize`: an error past the first stage goes to the redirect URI of
  -- the request, unless reading the target throws in turn.
  unfoldable pub report : Params → Failure → Result Failure Answer
  report params (oauth e) = then_ok (single params "redirect_uri") (λ redirect_uri.
      then_ok (single params "state") (λ state.
        then_ok (single params "response_mode") (λ response_mode. ok (
          failure_response e (record {
            redirect_uri = redirect_uri;
            state = state;
            response_mode = response_mode;
          })))))
  report params other = ok (failure_page other)

  unfoldable pub start : Parsed → Handler S Answer
  start parsed = do
    session ← session_of config platform moment parsed.client
    from_result (
        ok (
          decide config platform moment
            (new_transaction moment.now config.transaction_ttl_seconds moment.tx_id parsed.request)
            parsed.client (valid_session config platform moment session)))

  abbrev pub after_parse : Params → Result Failure Parsed → Handler S Answer
  after_parse params (ok parsed) = start parsed
  after_parse params (err f) = from_result (report params f)

  -- `handleAuthorize`
  unfoldable pub handle_authorize : Params → Handler S Answer
  handle_authorize params =
      after_parse params (parse_authorization_request services requests params)

  -- `loadTransaction`: `none` is an answer to start again.
  abbrev pub with_client : Transaction → Option Client → Option Loaded
  with_client tx none = none
  with_client tx (some client) = some (record { tx = tx; client = client })

  abbrev pub with_transaction : Option Transaction → Result Failure (Option Loaded)
  with_transaction none = ok none
  with_transaction (some tx) =
      if expired moment.now tx
      then ok none
      else then_ok (from_thrown (services.resolve tx.request.client_id))
          (λ found. ok (with_client tx found))

  abbrev pub with_token : Option Text → Result Failure (Option Loaded)
  with_token none = ok none
  with_token (some token) = with_transaction (
      open_transaction
        (unseal platform.aead platform.tx_codec moment.now none config.secrets (codes "tx") token))

  unfoldable pub load_transaction : Params → Result Failure (Option Loaded)
  load_transaction params = then_ok (single params "tx") with_token

  abbrev pub or_again : (Loaded → Handler S Answer) → Option Loaded → Handler S Answer
  or_again next none = from_result (ok start_again)
  or_again next (some loaded) = next loaded

  abbrev pub on_loaded : Params → (Loaded → Handler S Answer) → Handler S Answer
  on_loaded params next = from_result (load_transaction params) >>= or_again next

  -- `handleEmailSubmit`
  abbrev pub asks_code : Transaction → Option Text → Bool
  asks_code tx method =
      is_given method
      && or_default method [] == codes "otp"
      && config.otp.enabled
      && not (requires_federation tx.request.acr_values)

  unfoldable pub with_address : Params → Transaction → Handler S Answer
  with_address params ready = do
    method ← from_result (single params "method")
    if asks_code ready method
        then send_otp config platform moment ready false
        else route config platform moment ready

  abbrev pub with_email : Params → Transaction → Option Text → Handler S Answer
  with_email params tx none =
      from_result
        (ok (render_email moment tx (some (first_or_empty (get_all params "email"))) true))
  with_email params tx (some address) = with_address params (record tx { email = some address })

  unfoldable pub submit_email : Params → Loaded → Handler S Answer
  submit_email params loaded = do
    remember_me ← from_result (single params "remember_me")
    given ← from_result (single params "email")
    with_email params (record (loaded.tx) { remember_me = some (is_given remember_me) })
        (email_given given)

  unfoldable pub handle_email_submit : Params → Handler S Answer
  handle_email_submit params = on_loaded params (submit_email params)

  -- `handleOtpRequest`, `handleResend` and `handleOtpSubmit`
  unfoldable pub handle_otp_request : Params → Handler S Answer
  handle_otp_request params =
      on_loaded params (λ loaded. request_otp config platform moment loaded.tx)

  unfoldable pub handle_resend : Params → Handler S Answer
  handle_resend params = on_loaded params (λ loaded. resend_otp config platform moment loaded.tx)

  unfoldable pub handle_otp_submit : Params → Handler S Answer
  handle_otp_submit params =
      on_loaded params (λ loaded. submit_otp config platform moment loaded.tx loaded.client params)

  -- `handleRestart`
  unfoldable pub handle_restart : Params → Handler S Answer
  handle_restart params =
      on_loaded params
        (λ loaded. from_result (ok (render_email moment (without_otp loaded.tx) none false)))

  -- `handleContinue`
  unfoldable pub continue_loaded : Loaded → Handler S Answer
  continue_loaded loaded = do
    session ← session_of config platform moment loaded.client
    from_result (
        ok (
          continue_with_session config platform moment loaded.tx loaded.client
            (valid_session config platform moment session)))

  unfoldable pub handle_continue : Params → Handler S Answer
  handle_continue params = on_loaded params continue_loaded

  -- `handleChooseUpstream`
  abbrev pub with_choice : Transaction → Option Upstream → Handler S Answer
  with_choice tx none = from_result (ok start_again)
  with_choice tx (some u) = start_upstream config platform moment tx u false

  unfoldable pub choose_loaded : Params → Loaded → Handler S Answer
  choose_loaded params loaded = do
    chosen ← from_result (single params "upstream")
    with_choice loaded.tx (
        find (λ (u : Upstream). is_given chosen && u.id == or_default chosen [])
          (platform.upstreams_for (address_of loaded.tx)))

  unfoldable pub handle_choose_upstream : Params → Handler S Answer
  handle_choose_upstream params = on_loaded params (choose_loaded params)
