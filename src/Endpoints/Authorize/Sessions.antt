-- ===== src/Endpoints/Authorize/Sessions.antt =====
-- The answers of the handlers that answer from a session or start the flow over, and the
-- transaction that their pages carry.
use smart_access_gateway.Prelude.{
  inl, inr, Bool, false, not, ◌&&◌, Option, none, some, ok, Bool-cases,
}
use smart_access_gateway.Util.Bytes.{Text, codes}
use smart_access_gateway.Util.Http.{Params, single}
use smart_access_gateway.Clients.{Client}
use smart_access_gateway.Oauth.Transaction.{new_transaction, without_otp}
use smart_access_gateway.Oauth.Request.{RequestServices, RequestConfig, Parsed}
use smart_access_gateway.Endpoints.Handler.{from_result}
use smart_access_gateway.Endpoints.Authorize.{Transaction, Upstream, FlowConfig, Platform, Moment}
use smart_access_gateway.Endpoints.Authorize.Complete.{
  session_of, asks, forces_login, usable, is_fresh, meets_acr, decide_silently, decide_openly,
  render_email, render_continue, complete, decide, continue_with_session, valid_session,
}
use smart_access_gateway.Endpoints.Authorize.Handlers.{
  Loaded, choose_loaded, with_choice, continue_loaded, start,
}
use smart_access_gateway.Session.{Session}
use smart_access_gateway.Profile.{Held}
use smart_access_gateway.Endpoints.Authorize.Steps.{no_stage, start_upstream-Ends}
use smart_access_gateway.Endpoints.Authorize.Demands.{
  carried, Holds, Ends, Ends-continue, failure_response-Holds, IsHonest,
}

module _ {S : Type 0} (config : FlowConfig) (platform : Platform S) (moment : Moment) where
  render_email-Holds :
      (tx : Transaction) (address : Option Text) (failed : Bool)
      → Holds (IsHonest config platform) (carried (render_email moment tx address failed))
  unfolding render_email
  render_email-Holds tx address failed stage = absurd (no_stage stage)

  continue_with_session-Holds :
      (tx : Transaction) (client : Client) (held : Option (Session Held))
      → Holds
          (IsHonest config platform)
          (carried (continue_with_session config platform moment tx client held))
  unfolding continue_with_session complete
  continue_with_session-Holds tx client none = render_email-Holds tx none false
  continue_with_session-Holds tx client (some session) =
      elim (Bool-cases (not (is_fresh config platform moment tx session))) [
        | inl old ↦ rw old (render_email-Holds tx (some session.email) false)
        | inr fresh ↦ elim (Bool-cases (not (meets_acr config platform moment tx session))) [
          | inl weak ↦ rw (fresh, weak) (render_email-Holds tx (some session.email) false)
          | inr strong ↦ rw (fresh, strong) tt
        ]
      ]

  pub continue_loaded-Ends :
      (services : RequestServices) (requests : RequestConfig) (loaded : Loaded) (s : S)
      → Ends
          (IsHonest config platform)
          (continue_loaded services requests config platform moment loaded s).0
  unfolding continue_loaded
  continue_loaded-Ends services requests loaded s =
      Ends-continue (IsHonest config platform)
        (λ session. from_result (
          ok (
            continue_with_session config platform moment loaded.tx loaded.client
              (valid_session config platform moment session))))
        (session_of config platform moment loaded.client s).0
        (session_of config platform moment loaded.client s).1
        (λ session t.
          continue_with_session-Holds loaded.tx loaded.client
            (valid_session config platform moment session))

  pub choose_loaded-Ends :
      (services : RequestServices) (requests : RequestConfig) (params : Params) (loaded : Loaded)
      (s : S)
      → Ends
          (IsHonest config platform)
          (choose_loaded services requests config platform moment params loaded s).0
  unfolding choose_loaded
  choose_loaded-Ends services requests params loaded s =
      Ends-continue (IsHonest config platform) _ (single params "upstream") s (λ chosen t. go t _)
    where
      go :
          (t : S) (u : Option Upstream)
          → Ends
              (IsHonest config platform)
              (with_choice services requests config platform moment loaded.tx u t).0
      go t none = tt
      go t (some u) = start_upstream-Ends config platform moment loaded.tx u false t

  pub restart-Ends :
      (tx : Transaction)
      → Holds (IsHonest config platform) (carried (render_email moment (without_otp tx) none false))
  restart-Ends tx = render_email-Holds (without_otp tx) none false

  decide_silently-Holds :
      (tx : Transaction) (client : Client) (held : Option (Session Held))
      → Holds
          (IsHonest config platform)
          (carried (decide_silently config platform moment tx client held))
  unfolding decide_silently complete
  decide_silently-Holds tx client none = failure_response-Holds (IsHonest config platform) _ _
  decide_silently-Holds tx client (some session) =
      elim (Bool-cases (not (is_fresh config platform moment tx session))) [
        | inl old ↦ rw old (failure_response-Holds (IsHonest config platform) _ _)
        | inr fresh ↦ elim (Bool-cases (not (meets_acr config platform moment tx session))) [
          | inl weak ↦ rw (fresh, weak) (failure_response-Holds (IsHonest config platform) _ _)
          | inr strong ↦ elim (Bool-cases (forces_login config platform moment tx)) [
            | inl forced ↦
                rw (fresh, strong, forced) (failure_response-Holds (IsHonest config platform) _ _)
            | inr free ↦ rw (fresh, strong, free) tt
          ]
        ]
      ]

  decide-Holds :
      (tx : Transaction) (client : Client) (held : Option (Session Held))
      → Holds (IsHonest config platform) (carried (decide config platform moment tx client held))
  unfolding decide decide_openly render_continue
  decide-Holds tx client held = elim (Bool-cases (asks config platform moment (codes "none") tx)) [
    | inl silent ↦ rw silent (silently held)
    | inr loud ↦ rw loud (openly held)
  ]
    where
      openly :
          (h : Option (Session Held))
          → Holds (IsHonest config platform) (carried (decide_openly config platform moment tx h))
      openly none = render_email-Holds tx _ false
      openly (some session) =
          elim (Bool-cases (
            usable config platform moment tx session
            && asks config platform moment (codes "consent") tx)) [
              | inl shown ↦ rw shown (λ stage. absurd (no_stage stage))
              | inr other ↦ rw other (render_email-Holds tx _ false)
            ]

      silently :
          (h : Option (Session Held))
          → Holds
              (IsHonest config platform)
              (carried (decide_silently config platform moment tx client h))
      silently h = decide_silently-Holds tx client h

  pub start-Ends :
      (services : RequestServices) (requests : RequestConfig) (parsed : Parsed) (s : S)
      → Ends (IsHonest config platform) (start services requests config platform moment parsed s).0
  unfolding start
  start-Ends services requests parsed s =
      let tx : Transaction =
        new_transaction moment.now config.transaction_ttl_seconds moment.tx_id parsed.request in
      Ends-continue (IsHonest config platform)
        (λ session. from_result (
          ok (
            decide config platform moment tx parsed.client
              (valid_session config platform moment session))))
        (session_of config platform moment parsed.client s).0
        (session_of config platform moment parsed.client s).1
        (λ session t. decide-Holds tx parsed.client (valid_session config platform moment session))
