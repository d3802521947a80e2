-- ===== src/Examples/Requests.antt =====
-- Requests that are answered from a session, or refused.
use smart_access_gateway.Prelude.{◌≡◌, refl, ◌≢◌, true, false, Option, none, some, [], ◌∷◌, ok}
use smart_access_gateway.Util.Bytes.{Text, codes}
use smart_access_gateway.Util.Text.{to_lower, text_eq, text_Eq}
use smart_access_gateway.Util.Http.{Params, get_all, single}
use smart_access_gateway.Errors.{login_required}
use smart_access_gateway.Session.{Session, session_is_fresh, read_session, touch}
use smart_access_gateway.Acr.{satisfies}
use smart_access_gateway.Clients.{
  Url, Client, normalise, redirect_uri_allowed, scheme_allowed, drop_last,
}
use smart_access_gateway.Clients.Redirects.{IsRegistered, redirect_uri_allowed_sound}
use smart_access_gateway.Oauth.Transaction.{Request, new_transaction}
use smart_access_gateway.Oauth.Request.{
  RequestServices, RequestConfig, Parsed, natural, parse_authorization_request, identify,
  parse_answer,
}
use smart_access_gateway.Oauth.Request.Accepted.{IsAccepted, parse_authorization_request-IsAccepted}
use smart_access_gateway.Endpoints.Authorize.{Transaction, Answer, email_page, relayed_error}
use smart_access_gateway.Endpoints.Authorize.Complete.{
  decide_silently, complete, session_of, decide, continue_with_session, forces_login, asks,
  is_fresh, meets_acr, valid_session, failure_response,
}
use smart_access_gateway.Endpoints.Authorize.Handlers.{start, handle_authorize}
use smart_access_gateway.Endpoints.Authorize.Silent.{
  Outcome, decide_silent, continue_with_session-decide,
}
use smart_access_gateway.Endpoints.Authorize.Relayed.{
  Sends, IsRegisteredUri, handle_authorize-Sends,
}
use smart_access_gateway.Examples.Registered.{app, app_request, session}
use smart_access_gateway.Session.{touch}
use smart_access_gateway.Examples.Deployment.{config, platform, moment, toy_url, services, requests}

abbrev silent_params : Params
silent_params =
    ("client_id", codes "app")
    ∷ ("redirect_uri", codes "app:/cb")
    ∷ ("response_type", codes "code")
    ∷ ("scope", codes "openid")
    ∷ ("prompt", codes "none")
    ∷ []

abbrev silent_request : Request
silent_request = record app_request { prompt = codes "none" ∷ [] }

abbrev silent : Parsed
silent = record { client = app; request = silent_request; ui_locales = [] }

parsed : parse_authorization_request services requests silent_params ≡ ok silent
unfolding parse_authorization_request identify single get_all text_eq redirect_uri_allowed normalise
    to_lower drop_last smart_access_gateway.Clients.same_target
    smart_access_gateway.Oauth.Request.parse_identified parse_answer
    smart_access_gateway.Oauth.Request.check_response_type
    smart_access_gateway.Oauth.Request.check_response_mode
    smart_access_gateway.Oauth.Request.check_scope
    smart_access_gateway.Oauth.Request.check_challenge
    smart_access_gateway.Oauth.Request.check_prompt smart_access_gateway.Oauth.Request.check_max_age
    smart_access_gateway.Oauth.Request.check_alg smart_access_gateway.Oauth.Request.parse_terms
    smart_access_gateway.Oauth.Request.parse_strength
    smart_access_gateway.Oauth.Request.required_acr smart_access_gateway.Oauth.Request.add_floor
    smart_access_gateway.Oauth.Request.request_of smart_access_gateway.Util.Text.words
parsed = refl

parse_authorization_request-IsAccepted_example : IsAccepted services requests silent
parse_authorization_request-IsAccepted_example =
    parse_authorization_request-IsAccepted services requests silent_params silent parsed

url_allowed :
    redirect_uri_allowed toy_url (codes "app:/cb" ∷ []) (codes "app:/cb") (codes "app" ∷ []) ≡ true
unfolding redirect_uri_allowed text_eq to_lower drop_last smart_access_gateway.Clients.same_target
url_allowed = refl

redirect_uri_allowed_sound_example :
    (want : Url) × (toy_url (codes "app:/cb") ≡ some want)
    × (scheme_allowed (codes "app" ∷ []) (to_lower (drop_last want.protocol)) ≡ true)
    × IsRegistered toy_url (codes "app:/cb" ∷ []) want
redirect_uri_allowed_sound_example =
    redirect_uri_allowed_sound toy_url (codes "app:/cb" ∷ []) (codes "app" ∷ []) (codes "app:/cb")
      url_allowed

abbrev silent_tx : Transaction
silent_tx = new_transaction 10 900 "t1" silent_request

uri_given : silent_request.redirect_uri ≢ []
uri_given e = cc

asks_silence : asks config platform moment (codes "none") silent_tx ≡ true
unfolding new_transaction text_eq
asks_silence = refl

decide_silent_example :
    Outcome config platform moment silent_tx app
      (some session)
      (decide config platform moment silent_tx app (some session))
unfolding new_transaction
decide_silent_example =
    decide_silent config platform moment silent_tx app (some session) asks_silence uri_given

abbrev refused : Answer
refused =
    relayed_error (codes "app:/cb") none (some (codes "query"))
      (login_required "There is no active session to answer this request from.")

no_session :
    (handle_authorize services requests config platform moment silent_params 0).0 ≡ ok refused
unfolding handle_authorize start session_of read_session valid_session decide decide_silently
    failure_response new_transaction text_eq
no_session = rw parsed refl

handle_authorize-Sends_example :
    Sends (IsRegisteredUri services requests config platform moment silent_params) refused
handle_authorize-Sends_example =
    handle_authorize-Sends services requests config platform moment silent_params 0 refused
      no_session

abbrev forced_tx : Transaction
forced_tx = new_transaction 10 900 "t1" (record app_request { prompt = codes "login" ∷ [] })

loud : asks config platform moment (codes "none") forced_tx ≡ false
unfolding new_transaction text_eq
loud = refl

forced : forces_login config platform moment forced_tx ≡ true
unfolding new_transaction text_eq
forced = refl

young : is_fresh config platform moment forced_tx session ≡ true
unfolding is_fresh session_is_fresh new_transaction smart_access_gateway.Session.new_session
young = refl

strong : meets_acr config platform moment forced_tx session ≡ true
unfolding meets_acr satisfies new_transaction
strong = refl

continue_with_session-decide_example :
    (next : Transaction) × (address : Option Text) × (decide config platform moment forced_tx app
        (some session)
      ≡ email_page next address false)
    × (continue_with_session config platform moment next app (some session)
        ≡ complete config platform moment next app session)
continue_with_session-decide_example =
    continue_with_session-decide config platform moment forced_tx app session loud forced young
      strong
