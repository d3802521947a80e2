-- ===== src/Endpoints/Authorize/Route.antt =====
-- Which way an address signs in.
use smart_access_gateway.Prelude.{
  Bool, true, false, not, ◌&&◌, ◌||◌, Option, none, some, List, [], ◌∷◌, ok, length, get_or, ◌==◌,
  nat_eq, string_eq, if◌then◌else◌,
}
use smart_access_gateway.Util.Bytes.{Text}
use smart_access_gateway.Util.Text.{text_Eq, split}
use smart_access_gateway.Errors.{server_error, unmet_acr}
use smart_access_gateway.Otp.{otp_allowed}
use smart_access_gateway.Acr.{requires_federation}
use smart_access_gateway.Oauth.Transaction.{choose, local_password}
use smart_access_gateway.Endpoints.Handler.{Handler, from_result}
use smart_access_gateway.Endpoints.Authorize.{
  Transaction, Upstream, Hint, Answer, password_page, chooser_page, to_upstream, FlowConfig,
  Platform, Moment,
}
use smart_access_gateway.Endpoints.Authorize.Complete.{
  failure_response, redirect_targets, render_email,
}
use smart_access_gateway.Endpoints.Authorize.Codes.{address_of, send_otp}

-- `tx.email.split('@')[1]`
abbrev pub domain_part : Text → Text
domain_part address = get_or (split b'@' address) 1 []

unfoldable pub render_chooser : Transaction → List Upstream → Option Text → Answer
render_chooser tx upstreams hinted = chooser_page (record tx { stage = choose }) upstreams hinted

unfoldable pub render_password : Transaction → Answer
render_password tx = password_page (record tx { stage = local_password })

abbrev pub id_of : Option Upstream → Option Text
id_of none = none
id_of (some u) = some u.id

module _ {S : Type 0} (config : FlowConfig) (platform : Platform S) (moment : Moment) where
  -- `otpAllowed(...) && !requiresFederation(...)`
  abbrev pub otp_possible : Transaction → Bool
  otp_possible tx =
      otp_allowed config.otp (address_of tx) && not (requires_federation tx.request.acr_values)

  -- `startUpstream`, from the URL that `beginUpstream` gives, if it does not throw.
  abbrev pub started : Transaction → Option Text → Handler S Answer
  started tx (some url) = from_result (ok (to_upstream url))
  started tx none =
      if otp_possible tx
      then send_otp config platform moment tx false
      else from_result (
          ok (
            failure_response
              (server_error "The sign-in provider for your organisation could not be reached.")
              (redirect_targets tx)))

  unfoldable pub start_upstream : Transaction → Upstream → Bool → Handler S Answer
  start_upstream tx upstream hinted = started tx (platform.begin upstream tx hinted)

  -- The branch of several common candidates, or of one that mail records must confirm.
  abbrev pub hinted_at : Transaction → List Upstream → Hint → Option Upstream → Handler S Answer
  hinted_at tx candidates hint (some u) =
      if config.hint_select
      then start_upstream tx u true
      else if otp_possible tx && hint.unmatched
      then send_otp config platform moment tx false
      else from_result (ok (render_chooser tx hint.list (some u.id)))
  hinted_at tx candidates hint none =
      if otp_possible tx && (hint.unmatched || length candidates == 1)
      then send_otp config platform moment tx false
      else from_result (ok (render_chooser tx hint.list none))

  unfoldable pub by_hint : Transaction → List Upstream → Hint → Handler S Answer
  by_hint tx candidates hint = hinted_at tx candidates hint hint.hinted

  -- No upstream covers the address.
  unfoldable pub without_upstream : Transaction → Handler S Answer
  without_upstream tx =
      if otp_possible tx
      then send_otp config platform moment tx false
      else if otp_allowed config.otp (address_of tx)
      then from_result (
          ok (
            failure_response
              (unmet_acr
                "No sign-in method available for this address can satisfy the requested authentication context.")
              (redirect_targets tx)))
      else if config.explain_unknown || not config.otp.enabled
      then from_result (ok (render_email moment tx tx.email true))
      else send_otp config platform moment tx false

  abbrev pub goes_straight : Upstream → Bool
  goes_straight u = config.hint_off || u.is_oidc && not u.mail_provider

  unfoldable pub by_upstream : Transaction → List Upstream → Handler S Answer
  by_upstream tx [] = without_upstream tx
  by_upstream tx (u ∷ []) =
      if not u.is_common || goes_straight u
      then start_upstream tx u false
      else by_hint tx (u ∷ []) (platform.hint (u ∷ []) (domain_part (address_of tx)))
  by_upstream tx (u ∷ v ∷ more) =
      if not u.is_common
      then from_result (ok (render_chooser tx (u ∷ v ∷ more) none))
      else by_hint tx (u ∷ v ∷ more) (platform.hint (u ∷ v ∷ more) (domain_part (address_of tx)))

  -- `route`
  unfoldable pub route : Transaction → Handler S Answer
  route tx =
      if platform.local_allowed (address_of tx)
      then from_result (ok (render_password tx))
      else by_upstream tx (platform.upstreams_for (address_of tx))
