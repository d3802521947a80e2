-- ===== src/Endpoints/Authorize/Silent.antt =====
-- What a session that is already there can answer.
use smart_access_gateway.Prelude.{
  String, ◌≡◌, refl, ◌≢◌, ◌⊎◌, inl, inr, Bool, true, false, Option, none, some, List, [], ◌∷◌,
  includes, nat_eq, string_eq, Bool-cases, length-eq-zero_false,
}
use smart_access_gateway.Util.Bytes.{Text, codes}
use smart_access_gateway.Util.Text.{text_Eq}
use smart_access_gateway.Errors.{OauthError}
use smart_access_gateway.Session.{Session}
use smart_access_gateway.Profile.{Held}
use smart_access_gateway.Clients.{Client}
use smart_access_gateway.Oauth.Transaction.{email}
use smart_access_gateway.Endpoints.Authorize.{
  Transaction, Answer, relayed_error, email_page, FlowConfig, Platform, Moment,
}
use smart_access_gateway.Endpoints.Authorize.Complete.{
  shown, prefill, failure_response, redirect_targets, shown, render_email, is_fresh, meets_acr,
  complete, asks, forces_login, prefill, decide_silently, decide_openly, decide,
  continue_with_session,
}

nobody : {C : Type 0} (session : Session C) → ◌≡◌ {A = Option (Session C)} none (some session) → ⊥
nobody session e = cc

failure_response-relayed :
    (e : OauthError) (tx : Transaction)
    → tx.request.redirect_uri ≢ []
    → e.redirectable ≡ true
    → failure_response e (redirect_targets tx)
      ≡ relayed_error tx.request.redirect_uri tx.request.state (some tx.request.response_mode) e
unfolding failure_response
failure_response-relayed e tx given may =
    let named = length-eq-zero_false tx.request.redirect_uri given in rw (named, may) refl

-- What a request with prompt=none may be told.
abbrev pub silent_errors : List String
silent_errors = "login_required" ∷ "interaction_required" ∷ "unmet_authentication_requirements" ∷ []

module _ {S : Type 0} (config : FlowConfig) (platform : Platform S) (moment : Moment) where
  -- The session that answers a request.
  pub record Answers (tx : Transaction) (held : Option (Session Held)) (session : Session Held)
      : Type 0 where
    pub there : held ≡ some session
    pub fresh : is_fresh config platform moment tx session ≡ true
    pub strong : meets_acr config platform moment tx session ≡ true

  abbrev pub Outcome : Transaction → Client → Option (Session Held) → Answer → Type 0
  Outcome tx client held answer =
      ((session : Session Held) × Answers tx held session
        × (forces_login config platform moment tx ≡ false)
        × (answer ≡ complete config platform moment tx client session))
      ⊎ ((e : OauthError) × (includes e.code silent_errors ≡ true)
          × (answer
              ≡ relayed_error tx.request.redirect_uri tx.request.state
                  (some tx.request.response_mode) e)
          × ((session : Session Held)
              → Answers tx held session
              → forces_login config platform moment tx ≡ true))

  silently :
      (tx : Transaction) (client : Client) (held : Option (Session Held))
      → tx.request.redirect_uri ≢ []
      → Outcome tx client held (decide_silently config platform moment tx client held)
  unfolding decide_silently
  silently tx client none given = inr (
    _,
    refl,
    failure_response-relayed _ tx given refl,
    λ session a. absurd (nobody session a.there),
  )
  silently tx client (some session) given =
      elim (Bool-cases (is_fresh config platform moment tx session)) [
        | inr old ↦ rw old (
            inr (
              _,
              refl,
              failure_response-relayed _ tx given refl,
              λ other a. absurd (is_old other a old),
            ))
        | inl fresh ↦ elim (Bool-cases (meets_acr config platform moment tx session)) [
          | inr weak ↦
              rw (fresh, weak)
                (inr (
                  _,
                  refl,
                  failure_response-relayed _ tx given refl,
                  λ other a. absurd (is_weak other a weak),
                ))
          | inl strong ↦ elim (Bool-cases (forces_login config platform moment tx)) [
            | inl forced ↦
                rw (fresh, strong, forced)
                  (inr (_, refl, failure_response-relayed _ tx given refl, λ other a. refl))
            | inr free ↦
                rw (fresh, strong, free)
                  (inl
                    (session, record { there = refl; fresh = fresh; strong = strong }, refl, refl))
          ]
        ]
      ]
    where
      clash : {b : Bool} → b ≡ true → b ≡ false → ⊥
      clash h k = cc

      same : {x y : Session Held} → some x ≡ some y → x ≡ y
      same e = cc

      is_old :
          {mine : Session Held} (other : Session Held)
          → Answers tx (some mine) other
          → is_fresh config platform moment tx mine ≡ false
          → ⊥
      is_old other a old = clash a.fresh (rw (same a.there) at old)

      is_weak :
          {mine : Session Held} (other : Session Held)
          → Answers tx (some mine) other
          → meets_acr config platform moment tx mine ≡ false
          → ⊥
      is_weak other a weak = clash a.strong (rw (same a.there) at weak)

  -- A request with prompt=none, whose redirect URI is not empty, never gets a page. It is answered
  -- by a code from a session that is there, fresh and strong enough, if the request does not demand
  -- a new sign-in. Otherwise, that is if there is no such session or the request demands one, it is
  -- answered by login_required, interaction_required or unmet_authentication_requirements at the
  -- relying party's redirect URI.
  pub decide_silent :
      (tx : Transaction) (client : Client) (held : Option (Session Held))
      → asks config platform moment (codes "none") tx ≡ true
      → tx.request.redirect_uri ≢ []
      → Outcome tx client held (decide config platform moment tx client held)
  unfolding decide
  decide_silent tx client held silent given = rw silent (silently tx client held given)

  -- The continue button does not enforce prompt=login: if a request demands a new sign-in and a
  -- session is there that is fresh and strong enough, then the request is shown the email page,
  -- and posting the transaction of that page to the continue endpoint answers it from the old
  -- session.
  pub continue_with_session-decide :
      (tx : Transaction) (client : Client) (session : Session Held)
      → asks config platform moment (codes "none") tx ≡ false
      → forces_login config platform moment tx ≡ true
      → is_fresh config platform moment tx session ≡ true
      → meets_acr config platform moment tx session ≡ true
      → (next : Transaction) × (address : Option Text) × (decide config platform moment tx client
            (some session)
          ≡ email_page next address false)
        × (continue_with_session config platform moment next client (some session)
            ≡ complete config platform moment next client session)
  unfolding decide decide_openly continue_with_session render_email is_fresh meets_acr
  continue_with_session-decide tx client session loud forced fresh strong = (
    record tx { stage = email },
    shown moment (prefill config platform moment tx (some session)),
    rw (loud, forced) refl,
    rw (fresh, strong) refl,
  )
