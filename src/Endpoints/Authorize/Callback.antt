-- ===== src/Endpoints/Authorize/Callback.antt =====
-- The return from an upstream provider, from the sealed state that is opened: the exchange with the
-- provider, and the links of local accounts, are arguments.
use smart_access_gateway.Prelude.{
  String, Bool, true, false, not, ◌&&◌, Option, none, some, map, Result, ok, err, length, ltb, ◌==◌,
  nat_eq, string_eq, if◌then◌else◌,
}
use smart_access_gateway.Util.Bytes.{Text, codes}
use smart_access_gateway.Util.Text.{text_Eq, spell}
use smart_access_gateway.Util.Http.{Params, single}
use smart_access_gateway.Errors.{Failure, Thrown, thrown, login_required, access_denied, unmet_acr}
use smart_access_gateway.Crypto.Jose.{TextClaim}
use smart_access_gateway.Identity.{normalise_email}
use smart_access_gateway.Session.{Session, Authentication, new_session, reauthenticate}
use smart_access_gateway.Acr.{AmrClaim, acr_from_upstream, satisfies}
use smart_access_gateway.Profile.{Held, ProfileConfig, relayed_claims}
use smart_access_gateway.Clients.{Client}
use smart_access_gateway.Oauth.Transaction.{without_attempt, without_otp}
use smart_access_gateway.Endpoints.Handler.{Handler, from_result, ◌>>=◌}
use smart_access_gateway.Endpoints.Token.{from_thrown}
use smart_access_gateway.Endpoints.Authorize.{
  Transaction, Upstream, Answer, start_again, FlowConfig, Platform, Moment,
}
use smart_access_gateway.Endpoints.Authorize.Complete.{
  given_id, failure_response, redirect_targets, render_email, session_of, valid_session, complete,
  asks,
}
use smart_access_gateway.Endpoints.Authorize.Codes.{address_of}
use smart_access_gateway.Endpoints.Authorize.Route.{otp_possible, render_chooser}
use smart_access_gateway.Endpoints.Authorize.Local.{Account, refuse_password}

-- `stateTx.upstream`, as far as the return reads it.
pub record Leg : Type 0 where
  pub id : Text
  pub hinted : Bool

-- What `completeUpstream` gives.
pub record Identity : Type 0 where
  pub email : Text
  pub iss : Text
  pub sub : Text
  pub amr : AmrClaim
  pub acr : Option Text
  pub claims : Text → TextClaim
  pub refresh_token : Option Text

-- A local account that is linked to an upstream identity, with the link.
pub record Linked : Type 0 where
  pub account : Account
  pub link : String

pub record Links (S : Type 0) : Type 0 where
  pub linked : Text → Text → Text → Text → S → Result Thrown (Option Linked) × S
  pub store_refresh_token : Linked → Text → S → Result Thrown (Option Account) × S

-- `exchange` is `completeUpstream`, `none` where it throws, and `registered` the lookup of an
-- upstream that is still configured.
pub record CallbackContext (S : Type 0) : Type 0 where
  pub registered : Text → Option Upstream
  pub exchange : Upstream → Text → Transaction → Option Identity
  pub label : Upstream → String
  pub links : Option (Links S)
  pub profile : ProfileConfig

abbrev pub same_address : Option Text → Option Text → Bool
same_address none none = true
same_address (some a) (some b) = a == b
same_address _ _ = false

abbrev pub thrown_too : {S A : Type 0} → (S → Result Thrown A × S) → Handler S A
thrown_too step s = let (r, t) = step s in (from_thrown r, t)

abbrev pub not_persisted : Failure
not_persisted = thrown "could not persist the upstream refresh credential safely"

abbrev pub or_not_persisted : {S : Type 0} → Option Account → Handler S Account
or_not_persisted none = from_result (err not_persisted)
or_not_persisted (some account) = from_result (ok account)

module _ {S : Type 0} (config : FlowConfig) (platform : Platform S) (moment : Moment) where
  -- `offerFallback`; the password page and the address page say that the sign-in did not complete.
  unfoldable pub offer_fallback : Transaction → Answer
  offer_fallback tx =
      if platform.local_allowed (address_of tx)
      then refuse_password (without_attempt tx)
      else if ltb 1 (length (platform.upstreams_for (address_of tx)))
      then render_chooser (without_attempt tx) (platform.upstreams_for (address_of tx)) none
      else if otp_possible config platform moment tx
      then render_email moment (without_otp tx) tx.email true
      else failure_response
          (access_denied "Signing in with your organisation provider did not complete.")
          (redirect_targets tx)

  -- The upstream returned an error.
  unfoldable pub upstream_refused : Transaction → Leg → Text → Answer
  upstream_refused tx leg error =
      if asks config platform moment (codes "none") tx
      then failure_response
          (login_required "The sign-in provider could not authenticate you without interaction.")
          (redirect_targets tx)
      else if error == codes "access_denied" && not leg.hinted
      then failure_response (access_denied "You cancelled signing in, or the provider declined.")
          (redirect_targets tx)
      else offer_fallback tx

  module _ (ctx : CallbackContext S) where
    abbrev pub find_link : Links S → Transaction → Upstream → Identity → Handler S (Option Linked)
    find_link links tx u identity =
        thrown_too (links.linked (address_of tx) u.id identity.iss identity.sub)

    -- A second look at the link, after a concurrent update of the record.
    abbrev pub retry : Links S → Text → Option Linked → Handler S Account
    retry links token none = from_result (err not_persisted)
    retry links token (some again) =
        thrown_too (links.store_refresh_token again token) >>= or_not_persisted

    abbrev pub or_retry :
        Links S → Transaction → Upstream → Identity → Text → Option Account → Handler S Account
    or_retry links tx u identity token (some account) = from_result (ok account)
    or_retry links tx u identity token none = find_link links tx u identity >>= retry links token

    -- The refresh credential of the upstream is kept with the record.
    unfoldable pub persist :
        Links S → Transaction → Upstream → Identity → Linked → Handler S Account
    persist links tx u identity held = elim identity.refresh_token [
      | none ↦ from_result (ok held.account)
      | some token ↦
          if length token == 0
          then from_result (ok held.account)
          else thrown_too (links.store_refresh_token held token)
            >>= or_retry links tx u identity token
    ]

    abbrev pub persisted :
        Links S → Transaction → Upstream → Identity → Option Linked → Handler S (Option Account)
    persisted links tx u identity none = from_result (ok none)
    persisted links tx u identity (some held) =
        persist links tx u identity held >>= λ account. from_result (ok (some account))

    unfoldable pub linked_account : Transaction → Upstream → Identity → Handler S (Option Account)
    linked_account tx u identity = elim ctx.links [
      | none ↦ from_result (ok none)
      | some links ↦
          if same_address (normalise_email identity.email) (normalise_email (address_of tx))
          then find_link links tx u identity >>= persisted links tx u identity
          else from_result (ok none)
    ]

    unfoldable pub upstream_sign_in : Upstream → Identity → Option Account → Authentication Held
    upstream_sign_in u identity account = record {
      email_verified = some true;
      acr = (acr_from_upstream identity.amr).acr;
      amr = some (map spell (acr_from_upstream identity.amr).amr);
      auth_time = none;
      upstream = some (spell u.id);
      upstream_label = some (ctx.label u);
      claims = relayed_claims ctx.profile identity.claims identity.acr;
      local_identity_id = elim account [ none ↦ none | some a ↦ some a.id ];
      local_identity_key = elim account [ none ↦ none | some a ↦ some a.key ];
      local_security_version = elim account [ none ↦ none | some a ↦ some a.security_version ];
    }

    abbrev pub principal_email : Transaction → Identity → Option Account → Text
    principal_email tx identity none = identity.email
    principal_email tx identity (some account) = address_of tx

    -- `samePrincipal`; an identifier of a record is not empty.
    abbrev pub same_principal : Identity → Option Account → Session Held → Bool
    same_principal identity none session = elim (given_id session.local_identity_id) [
      | none ↦ session.email == identity.email
      | some id ↦ false
    ]
    same_principal identity (some account) session = elim session.local_identity_id [
      | none ↦ false
      | some id ↦ id == account.id
    ]

    unfoldable pub upstream_session :
        Transaction → Upstream → Identity → Option Account → Option (Session Held) → Session Held
    upstream_session tx u identity account none =
        new_session config.session moment.now moment.sid (principal_email tx identity account)
          (upstream_sign_in u identity account)
    upstream_session tx u identity account (some existing) =
        if same_principal identity account existing
        then reauthenticate config.session moment.now existing
            (some (principal_email tx identity account)) (upstream_sign_in u identity account)
        else new_session config.session moment.now moment.sid (principal_email tx identity account)
            (upstream_sign_in u identity account)

    unfoldable pub complete_upstream :
        Transaction → Client → Upstream → Identity → Option Account → Handler S Answer
    complete_upstream tx client u identity account = do
      existing ← session_of config platform moment client
      from_result (
          ok (
            complete config platform moment (record tx { upstream = none }) client
              (upstream_session tx u identity account
                (valid_session config platform moment existing))))

    unfoldable pub identified : Transaction → Client → Upstream → Identity → Handler S Answer
    identified tx client u identity =
        if not (satisfies (acr_from_upstream identity.amr).acr tx.request.acr_values)
        then from_result (
            ok (
              failure_response
                (unmet_acr
                  "The sign-in provider did not report an authentication strong enough for this request.")
                (redirect_targets tx)))
        else linked_account tx u identity >>= complete_upstream tx client u identity

    abbrev pub exchanged : Transaction → Client → Upstream → Option Identity → Handler S Answer
    exchanged tx client u none = from_result (ok (offer_fallback tx))
    exchanged tx client u (some identity) = identified tx client u identity

    abbrev pub with_upstream : Transaction → Client → Text → Option Upstream → Handler S Answer
    with_upstream tx client code none = from_result (ok start_again)
    with_upstream tx client code (some u) = exchanged tx client u (ctx.exchange u code tx)

    abbrev pub with_code : Transaction → Leg → Client → Option Text → Handler S Answer
    with_code tx leg client none = from_result (ok start_again)
    with_code tx leg client (some code) = with_upstream tx client code (ctx.registered leg.id)

    abbrev pub with_error : Transaction → Leg → Client → Params → Option Text → Handler S Answer
    with_error tx leg client params none =
        from_result (single params "code") >>= with_code tx leg client
    with_error tx leg client params (some error) =
        from_result (single params "error_description") >>= λ description.
        from_result (ok (upstream_refused tx leg error))

    -- `handleCallback`, from the state that is opened and the client that is resolved.
    unfoldable pub return_from_upstream : Transaction → Leg → Client → Params → Handler S Answer
    return_from_upstream tx leg client params =
        from_result (single params "error") >>= with_error tx leg client params
