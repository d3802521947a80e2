-- ===== src/Endpoints/Authorize/Relayed.antt =====
-- Where the authorisation endpoint sends people: its codes and its errors.
use mathlib.Core.Path.{subst}
use smart_access_gateway.Prelude.{
  ◌≡◌, refl, sym, ap, ◌∙◌, inl, inr, Bool, true, not, ◌&&◌, Option, none, some, arith, Result, ok,
  err, length, ◌==◌, nat_eq, string_eq, if◌then◌else◌, Bool-cases,
}
use smart_access_gateway.Util.Bytes.{Text, codes}
use smart_access_gateway.Util.Http.{Params, single}
use smart_access_gateway.Errors.{OauthError, Failure, oauth, unredirectable, thrown, store_failed}
use smart_access_gateway.Session.{Session}
use smart_access_gateway.Profile.{Held}
use smart_access_gateway.Clients.{Client, redirect_uri_allowed}
use smart_access_gateway.Oauth.Transaction.{new_transaction}
use smart_access_gateway.Oauth.Request.{
  RequestServices, RequestConfig, Parsed, parse_authorization_request,
}
use smart_access_gateway.Oauth.Request.Reported.{may_redirect, parse_authorization_request-reported}
use smart_access_gateway.Oauth.Request.Target.{parse_authorization_request-identified}
use smart_access_gateway.Endpoints.Handler.{from_result, continue_with}
use smart_access_gateway.Endpoints.Authorize.{
  Transaction, Target, Answer, relayed_error, error_page, completed, FlowConfig, Platform, Moment,
}
use smart_access_gateway.Endpoints.Authorize.Complete.{
  failure_response, redirect_targets, render_email, render_continue, asks, forces_login, usable,
  is_fresh, meets_acr, complete, decide_silently, decide_openly, decide, session_of, valid_session,
}
use smart_access_gateway.Endpoints.Authorize.Handlers.{
  then_ok, report, start, after_parse, handle_authorize,
}

-- What an answer sends, a code or an error, goes to a URI with the property.
abbrev pub Sends : (Text → Type 0) → Answer → Type 0
Sends P (completed c) = P c.redirect_uri
Sends P (relayed_error uri state mode e) = P uri
Sends P other = Unit

abbrev Answers : (Text → Type 0) → Result Failure Answer → Type 0
Answers P (ok answer) = Sends P answer
Answers P (err f) = Unit

failure_response-Sends :
    (P : Text → Type 0) (e : OauthError) (target : Target)
    → ((uri : Text) → e.redirectable ≡ true → target.redirect_uri ≡ some uri → P uri)
    → Sends P (failure_response e target)
unfolding failure_response
failure_response-Sends P e target good = go target.redirect_uri good
  where
    and_second : (a b : Bool) → (a && b) ≡ true → b ≡ true
    and_second a b h = ground arith

    go :
        (u : Option Text)
        → ((uri : Text) → e.redirectable ≡ true → u ≡ some uri → P uri)
        → Sends P (elim u [
          | none ↦ error_page e.status
          | some v ↦
              if not (length v == 0) && e.redirectable
              then relayed_error v target.state target.response_mode e
              else error_page e.status
        ])
    go none k = tt
    go (some v) k = elim (Bool-cases (not (length v == 0) && e.redirectable)) [
      | inl may ↦ rw may (k v (and_second _ _ may) refl)
      | inr not_may ↦ rw not_may tt
    ]

module _ {S : Type 0} (config : FlowConfig) (platform : Platform S) (moment : Moment)
    (P : Text → Type 0) where
  refused-Sends :
      (e : OauthError) (tx : Transaction)
      → P tx.request.redirect_uri
      → Sends P (failure_response e (redirect_targets tx))
  refused-Sends e tx p =
      failure_response-Sends P e (redirect_targets tx) (λ uri may same. subst P (some_inj same) p)
    where
      some_inj : {a b : Text} → ◌≡◌ {A = Option Text} (some a) (some b) → a ≡ b
      some_inj e = cc

  decide_silently-Sends :
      (tx : Transaction) (client : Client) (held : Option (Session Held))
      → P tx.request.redirect_uri
      → Sends P (decide_silently config platform moment tx client held)
  unfolding decide_silently complete
  decide_silently-Sends tx client none p = refused-Sends _ tx p
  decide_silently-Sends tx client (some session) p =
      elim (Bool-cases (not (is_fresh config platform moment tx session))) [
        | inl old ↦ rw old (refused-Sends _ tx p)
        | inr fresh ↦ elim (Bool-cases (not (meets_acr config platform moment tx session))) [
          | inl weak ↦ rw (fresh, weak) (refused-Sends _ tx p)
          | inr strong ↦ elim (Bool-cases (forces_login config platform moment tx)) [
            | inl forced ↦ rw (fresh, strong, forced) (refused-Sends _ tx p)
            | inr free ↦ rw (fresh, strong, free) p
          ]
        ]
      ]

  decide-Sends :
      (tx : Transaction) (client : Client) (held : Option (Session Held))
      → P tx.request.redirect_uri
      → Sends P (decide config platform moment tx client held)
  unfolding decide decide_openly render_email render_continue
  decide-Sends tx client held p =
      elim (Bool-cases (asks config platform moment (codes "none") tx)) [
        | inl silent ↦ rw silent (decide_silently-Sends tx client held p)
        | inr loud ↦ rw loud (openly held)
      ]
    where
      openly : (h : Option (Session Held)) → Sends P (decide_openly config platform moment tx h)
      openly none = tt
      openly (some session) =
          elim (Bool-cases (
            usable config platform moment tx session
            && asks config platform moment (codes "consent") tx)) [
              | inl shown ↦ rw shown tt
              | inr other ↦ rw other tt
            ]

module _ {S : Type 0} (services : RequestServices) (requests : RequestConfig) (config : FlowConfig)
    (platform : Platform S) (moment : Moment) where
  -- A URI that the client which the request names registered, with a scheme that is allowed.
  pub record IsRegisteredUri (params : Params) (uri : Text) : Type 0 where
    pub client_id : Text
    pub client : Client
    pub named : single params "client_id" ≡ ok (some client_id)
    pub resolved : services.resolve client_id ≡ ok (some client)
    pub registered :
        redirect_uri_allowed services.parse_url client.redirect_uris uri
          requests.redirect_uri_schemes
        ≡ true

  start-Answers :
      (P : Text → Type 0) (parsed : Parsed) (s : S)
      → P parsed.request.redirect_uri
      → Answers P (start services requests config platform moment parsed s).0
  unfolding start new_transaction
  start-Answers P parsed s p = go (session_of config platform moment parsed.client s).0
    where
      tx : Transaction
      tx = new_transaction moment.now config.transaction_ttl_seconds moment.tx_id parsed.request

      go :
          (r : Result Failure (Option (Session Held)))
          → Answers P
              (continue_with
                (λ session. from_result {S = S} (
                  ok (
                    decide config platform moment tx parsed.client
                      (valid_session config platform moment session))))
                r
                (session_of config platform moment parsed.client s).1).0
      go (ok session) =
          decide-Sends config platform moment P tx parsed.client
            (valid_session config platform moment session) p
      go (err f) = tt

  report-Answers :
      (P : Text → Type 0) (params : Params) (f : Failure)
      → (may_redirect f ≡ true
          → (uri : Text) → single params "redirect_uri" ≡ ok (some uri)
          → P uri)
      → Answers P (report services requests config platform moment params f)
  unfolding report
  report-Answers P params (unredirectable e) good = tt
  report-Answers P params (thrown m) good = tt
  report-Answers P params (store_failed e) good = tt
  report-Answers P params (oauth e) good =
      go (single params "redirect_uri") good (single params "state") (single params "response_mode")
    where
      go :
          (uri : Result Failure (Option Text))
          → (may_redirect (oauth e) ≡ true → (u : Text) → uri ≡ ok (some u) → P u)
          → (state mode : Result Failure (Option Text))
          → Answers P (
              then_ok uri (λ redirect_uri. then_ok state (λ state. then_ok mode (λ response_mode.
                ok (
                  failure_response e (record {
                    redirect_uri = redirect_uri;
                    state = state;
                    response_mode = response_mode;
                  }))))))
      go (err x) k state mode = tt
      go (ok u) k (err x) mode = tt
      go (ok u) k (ok state) (err x) = tt
      go (ok u) k (ok state) (ok mode) =
          failure_response-Sends P e _ (λ uri may same. k may uri (ap ok same))

  -- The authorisation endpoint is no open redirector. Whatever a request holds, a code or an error
  -- that its handler sends goes to a redirect URI that the client which the request's client_id names
  -- has registered, and whose scheme is allowed.
  pub handle_authorize-Sends :
      (params : Params) (s : S) (answer : Answer)
      → (handle_authorize services requests config platform moment params s).0 ≡ ok answer
      → Sends (IsRegisteredUri params) answer
  unfolding handle_authorize
  handle_authorize-Sends params s answer h =
      subst (Answers (IsRegisteredUri params)) h
        (go (parse_authorization_request services requests params) refl)
    where
      uri_inj :
          {a b : Text} → ◌≡◌ {A = Result Failure (Option Text)} (ok (some a)) (ok (some b)) → a ≡ b
      uri_inj e = cc

      go :
          (r : Result Failure Parsed)
          → parse_authorization_request services requests params ≡ r
          → Answers
              (IsRegisteredUri params)
              (after_parse services requests config platform moment params r s).0
      go (ok parsed) e =
          let (who, found, same_client, same_uri) =
            parse_authorization_request-identified services requests params parsed e in
          start-Answers (IsRegisteredUri params) parsed s (record {
            client_id = who.client_id;
            client = who.client;
            named = found.client_given;
            resolved = found.resolved;
            registered = rw same_uri found.registered;
          })
      go (err f) e = report-Answers (IsRegisteredUri params) params f (λ may uri given.
          let (who, found) =
            parse_authorization_request-reported services requests params f e may in
          record {
            client_id = who.client_id;
            client = who.client;
            named = found.client_given;
            resolved = found.resolved;
            registered = rw (uri_inj (sym given ∙ found.uri_given)) found.registered;
          })
