-- ===== src/Endpoints/Authorize/Returns.antt =====
-- The answers to a return from an upstream, and the transaction that their pages carry.
use smart_access_gateway.Prelude.{
  inl, inr, not, ◌&&◌, Option, none, some, length, ltb, ◌==◌, nat_eq, string_eq, Bool-cases,
}
use smart_access_gateway.Util.Bytes.{Text, codes}
use smart_access_gateway.Util.Text.{text_Eq}
use smart_access_gateway.Util.Http.{Params, single}
use smart_access_gateway.Acr.{satisfies, acr_from_upstream}
use smart_access_gateway.Clients.{Client}
use smart_access_gateway.Endpoints.Authorize.{Transaction, Upstream, FlowConfig, Platform, Moment}
use smart_access_gateway.Endpoints.Authorize.Complete.{render_email, session_of, complete, asks}
use smart_access_gateway.Endpoints.Authorize.Codes.{address_of}
use smart_access_gateway.Endpoints.Authorize.Route.{otp_possible, render_chooser}
use smart_access_gateway.Endpoints.Authorize.Local.{Account, refuse_password}
use smart_access_gateway.Endpoints.Authorize.Callback.{
  Leg, Identity, CallbackContext, offer_fallback, upstream_refused, linked_account,
  complete_upstream, identified, exchanged, with_upstream, with_code, with_error,
  return_from_upstream,
}
use smart_access_gateway.Endpoints.Authorize.Steps.{no_stage}
use smart_access_gateway.Endpoints.Authorize.Demands.{
  carried, Holds, Ends, Ends-continue, Ends-if, failure_response-Holds, IsHonest,
}

module _ {S : Type 0} (config : FlowConfig) (platform : Platform S) (moment : Moment) where
  offer_fallback-Holds :
      (tx : Transaction)
      → Holds (IsHonest config platform) (carried (offer_fallback config platform moment tx))
  unfolding offer_fallback refuse_password render_chooser render_email
  offer_fallback-Holds tx = elim (Bool-cases (platform.local_allowed (address_of tx))) [
    | inl local ↦ rw local (λ stage. absurd (no_stage stage))
    | inr other ↦ elim (Bool-cases (ltb 1 (length (platform.upstreams_for (address_of tx))))) [
      | inl several ↦ rw (other, several) (λ stage. absurd (no_stage stage))
      | inr few ↦ elim (Bool-cases (otp_possible config platform moment tx)) [
        | inl may ↦ rw (other, few, may) (λ stage. absurd (no_stage stage))
        | inr cannot ↦
            rw (other, few, cannot) (failure_response-Holds (IsHonest config platform) _ _)
      ]
    ]
  ]

  upstream_refused-Holds :
      (tx : Transaction) (leg : Leg) (error : Text)
      → Holds
          (IsHonest config platform)
          (carried (upstream_refused config platform moment tx leg error))
  unfolding upstream_refused
  upstream_refused-Holds tx leg error =
      elim (Bool-cases (asks config platform moment (codes "none") tx)) [
        | inl silent ↦ rw silent (failure_response-Holds (IsHonest config platform) _ _)
        | inr loud ↦ elim (Bool-cases (error == codes "access_denied" && not leg.hinted)) [
          | inl denied ↦ rw (loud, denied) (failure_response-Holds (IsHonest config platform) _ _)
          | inr again ↦ rw (loud, again) (offer_fallback-Holds tx)
        ]
      ]

  module _ (ctx : CallbackContext S) where
    complete_upstream-Ends :
        (tx : Transaction) (client : Client) (u : Upstream) (identity : Identity)
        (account : Option Account) (s : S)
        → Ends
            (IsHonest config platform)
            (complete_upstream config platform moment ctx tx client u identity account s).0
    unfolding complete_upstream complete
    complete_upstream-Ends tx client u identity account s =
        Ends-continue (IsHonest config platform) _ (session_of config platform moment client s).0
          (session_of config platform moment client s).1 (λ existing t. tt)

    exchanged-Ends :
        (tx : Transaction) (client : Client) (u : Upstream) (identity : Option Identity) (s : S)
        → Ends
            (IsHonest config platform)
            (exchanged config platform moment ctx tx client u identity s).0
    unfolding identified
    exchanged-Ends tx client u none s = offer_fallback-Holds tx
    exchanged-Ends tx client u (some identity) s =
        Ends-if (IsHonest config platform)
          (not (satisfies (acr_from_upstream identity.amr).acr tx.request.acr_values)) _ _ s
          (λ weak. failure_response-Holds (IsHonest config platform) _ _)
          (λ strong.
            Ends-continue (IsHonest config platform) _
              (linked_account config platform moment ctx tx u identity s).0
              (linked_account config platform moment ctx tx u identity s).1
              (λ account t. complete_upstream-Ends tx client u identity account t))

    with_upstream-Ends :
        (tx : Transaction) (client : Client) (code : Text) (u : Option Upstream) (s : S)
        → Ends
            (IsHonest config platform)
            (with_upstream config platform moment ctx tx client code u s).0
    with_upstream-Ends tx client code none s = tt
    with_upstream-Ends tx client code (some u) s =
        exchanged-Ends tx client u (ctx.exchange u code tx) s

    with_code-Ends :
        (tx : Transaction) (leg : Leg) (client : Client) (code : Option Text) (s : S)
        → Ends
            (IsHonest config platform)
            (with_code config platform moment ctx tx leg client code s).0
    with_code-Ends tx leg client none s = tt
    with_code-Ends tx leg client (some code) s =
        with_upstream-Ends tx client code (ctx.registered leg.id) s

    with_error-Ends :
        (tx : Transaction) (leg : Leg) (client : Client) (params : Params) (error : Option Text)
        (s : S)
        → Ends
            (IsHonest config platform)
            (with_error config platform moment ctx tx leg client params error s).0
    with_error-Ends tx leg client params none s =
        Ends-continue (IsHonest config platform) _ (single params "code") s
          (λ code t. with_code-Ends tx leg client code t)
    with_error-Ends tx leg client params (some error) s =
        Ends-continue (IsHonest config platform) _ (single params "error_description") s
          (λ description t. upstream_refused-Holds tx leg error)

    pub return_from_upstream-Ends :
        (tx : Transaction) (leg : Leg) (client : Client) (params : Params) (s : S)
        → Ends
            (IsHonest config platform)
            (return_from_upstream config platform moment ctx tx leg client params s).0
    unfolding return_from_upstream
    return_from_upstream-Ends tx leg client params s =
        Ends-continue (IsHonest config platform) _ (single params "error") s
          (λ error t. with_error-Ends tx leg client params error t)
