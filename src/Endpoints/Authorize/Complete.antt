-- ===== src/Endpoints/Authorize/Complete.antt =====
-- The session of a request, the decision whether it answers the request, and the completion.
use smart_access_gateway.Prelude.{
  String, Bool, true, false, not, ◌&&◌, ◌||◌, Option, none, some, ◌∷◌, Result, ok, err, length,
  includes, ◌==◌, nat_eq, string_eq, if◌then◌else◌,
}
use smart_access_gateway.Util.Bytes.{Text, codes}
use smart_access_gateway.Util.Text.{text_Eq}
use smart_access_gateway.Errors.{
  store_failed, OauthError, Failure, login_required, unmet_acr, interaction_required,
}
use smart_access_gateway.Store.{StoreError}
use smart_access_gateway.Crypto.Seal.{unseal}
use smart_access_gateway.Session.{
  Session, session_is_fresh, read_session, touch, session_client_for, cookie_name_for,
}
use smart_access_gateway.Identity.{identity_email, subject_input, email_principal, local_principal}
use smart_access_gateway.Acr.{satisfies}
use smart_access_gateway.Profile.{Held}
use smart_access_gateway.Clients.{Client, subject_part}
use smart_access_gateway.Oauth.Code.{issue_code}
use smart_access_gateway.Oauth.Transaction.{email, continue}
use smart_access_gateway.Endpoints.Handler.{Handler}
use smart_access_gateway.Endpoints.Authorize.{
  Transaction, Target, Answer, email_page, continue_page, relayed_error, error_page, completed,
  Remember, roll, clear, leave, FlowConfig, Platform, Moment,
}

-- `value || undefined` on an identifier.
abbrev pub given_id : Option String → Option String
given_id none = none
given_id (some id) = if id == "" then none else some id

-- `failureResponse` for an `OAuthError`
unfoldable pub failure_response : OauthError → Target → Answer
failure_response e target = elim target.redirect_uri [
  | none ↦ error_page e.status
  | some uri ↦
      if not (length uri == 0) && e.redirectable
      then relayed_error uri target.state target.response_mode e
      else error_page e.status
]

-- `redirectTargets`
abbrev pub redirect_targets : Transaction → Target
redirect_targets tx = record {
  redirect_uri = some tx.request.redirect_uri;
  state = tx.request.state;
  response_mode = some tx.request.response_mode;
}

-- `renderEmail`, without and with an error: a shown address that is absent is the remembered one.
abbrev pub shown : Moment → Option Text → Option Text
shown moment (some address) = some address
shown moment none = moment.remembered

unfoldable pub render_email : Moment → Transaction → Option Text → Bool → Answer
render_email moment tx address failed =
    email_page (record tx { stage = email }) (shown moment address) failed

unfoldable pub render_continue : Transaction → Session Held → Answer
render_continue tx session = continue_page (record tx { stage = continue }) session

module _ {S : Type 0} (config : FlowConfig) (platform : Platform S) (moment : Moment) where
  -- `validSession`
  abbrev pub still_valid : Session Held → Option (Session Held)
  still_valid session = elim (given_id session.local_identity_id) [
    | none ↦ some session
    | some id ↦ elim platform.valid_local [
      | none ↦ none
      | some validate ↦ if validate session then some session else none
    ]
  ]

  unfoldable pub valid_session : Option (Session Held) → Option (Session Held)
  valid_session none = none
  valid_session (some session) = still_valid session

  abbrev from_store_error :
      Result StoreError (Option (Session Held)) → Result Failure (Option (Session Held))
  from_store_error (ok session) = ok session
  from_store_error (err e) = err (store_failed e)

  -- `readSession` for the cookie that the client's scope names.
  unfoldable pub session_of : Client → Handler S (Option (Session Held))
  session_of client s =
      let name =
        cookie_name_for platform.sha256 config.session
          (session_client_for config.session client.session_scope client.client_id) in
      let (r, t) =
        read_session moment.now
          (unseal platform.aead platform.session_codec moment.now none config.secrets
            (codes "session"))
          platform.store (moment.cookies name) s in
      (from_store_error r, t)

  unfoldable pub is_fresh : Transaction → Session Held → Bool
  is_fresh tx session =
      session_is_fresh moment.now config.clock_skew_seconds tx.request.max_age session

  unfoldable pub meets_acr : Transaction → Session Held → Bool
  meets_acr tx session = satisfies session.acr tx.request.acr_values

  -- The subject of a session for a client, and the address that the client is told.
  abbrev pub told_email : Client → Session Held → Text
  told_email client session =
      identity_email config.sanitise_plus_emails session.email (subject_part client)

  unfoldable pub subject_of : Client → Session Held → Text
  subject_of client session = elim (given_id session.local_identity_id) [
    | some id ↦
        platform.derive
          (subject_input config.subject_type (local_principal (codes id)) (subject_part client))
    | none ↦ platform.derive (
        subject_input config.subject_type (email_principal (told_email client session))
          (subject_part client))
  ]

  -- What a completion does to the remembered address.
  unfoldable pub remember : Option Bool → Text → Remember
  remember (some true) address = roll address
  remember (some false) address = if moment.has_remember_cookie then clear else leave
  remember none address = elim moment.remembered [ none ↦ leave | some old ↦ roll address ]

  -- `complete`, whose callers all refresh the cookie.
  unfoldable pub complete : Transaction → Client → Session Held → Answer
  complete tx client authenticated =
      let session = touch config.session moment.now authenticated in
      completed (record {
        redirect_uri = tx.request.redirect_uri;
        response_mode = tx.request.response_mode;
        state = tx.request.state;
        code =
            issue_code platform.aead platform.code_codec moment.now config.code_ttl_seconds
              moment.jti moment.iv config.first_secret tx session (subject_of client session)
              (told_email client session);
        session = session;
        remember = remember tx.remember_me session.email;
      })

  abbrev pub asks : Text → Transaction → Bool
  asks prompt tx = includes prompt tx.request.prompt

  abbrev pub forces_login : Transaction → Bool
  forces_login tx = asks (codes "login") tx || asks (codes "select_account") tx

  -- The branch of `decide` for `prompt=none`.
  unfoldable pub decide_silently : Transaction → Client → Option (Session Held) → Answer
  decide_silently tx client none =
      failure_response (login_required "There is no active session to answer this request from.")
        (redirect_targets tx)
  decide_silently tx client (some session) =
      if not (is_fresh tx session)
      then failure_response (login_required "The existing session is too old for this request.")
          (redirect_targets tx)
      else if not (meets_acr tx session)
      then failure_response
          (unmet_acr "The existing session does not meet the requested authentication context.")
          (redirect_targets tx)
      else if forces_login tx
      then failure_response
          (interaction_required "prompt=none cannot be combined with a demand to re-authenticate.")
          (redirect_targets tx)
      else complete tx client session

  abbrev pub usable : Transaction → Session Held → Bool
  usable tx session = not (forces_login tx) && is_fresh tx session && meets_acr tx session

  abbrev pub prefill : Transaction → Option (Session Held) → Option Text
  prefill tx session = elim tx.request.login_hint [
    | some (c ∷ hint) ↦ some (c ∷ hint)
    | _ ↦ if forces_login tx then none else elim session [ none ↦ none | some x ↦ some x.email ]
  ]

  unfoldable pub decide_openly : Transaction → Option (Session Held) → Answer
  decide_openly tx none = render_email moment tx (prefill tx none) false
  decide_openly tx (some session) =
      if usable tx session && asks (codes "consent") tx
      then render_continue (record tx { stage = continue }) session
      else render_email moment tx (prefill tx (some session)) false

  -- `decide`
  unfoldable pub decide : Transaction → Client → Option (Session Held) → Answer
  decide tx client session =
      if asks (codes "none") tx then decide_silently tx client session else decide_openly tx session

  -- `handleContinue`, from the session that is read.
  unfoldable pub continue_with_session : Transaction → Client → Option (Session Held) → Answer
  continue_with_session tx client none = render_email moment tx none false
  continue_with_session tx client (some session) =
      if not (is_fresh tx session)
      then render_email moment tx (some session.email) false
      else if not (meets_acr tx session)
      then render_email moment tx (some session.email) false
      else complete tx client session
