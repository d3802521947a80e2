-- ===== src/Endpoints/Authorize/Moves.antt =====
-- No handler puts a transaction into the browser that waits for a code which could not answer it.
use smart_access_gateway.Prelude.{
  ◌≡◌, Bool, true, false, not, ◌&&◌, ◌||◌, Option, none, some, arith, ok, length, ◌==◌, nat_eq,
  string_eq,
}
use smart_access_gateway.Util.Bytes.{Text}
use smart_access_gateway.Util.Http.{Params, single}
use smart_access_gateway.Otp.{
  otp_allowed, Verdict, accepted, no_code, expired, too_many_attempts, mismatch,
}
use smart_access_gateway.Acr.{requires_federation}
use smart_access_gateway.Clients.{Client}
use smart_access_gateway.Oauth.Transaction.{OtpState, one_attempt, with_otp_attempt}
use smart_access_gateway.Oauth.Request.{RequestServices, RequestConfig}
use smart_access_gateway.Endpoints.Handler.{from_result}
use smart_access_gateway.Endpoints.Authorize.{Transaction, FlowConfig, Platform, Moment}
use smart_access_gateway.Endpoints.Authorize.Complete.{session_of, render_email, complete}
use smart_access_gateway.Endpoints.Authorize.Codes.{
  code_session, address_of, is_otp, request_otp, resend_otp, accept_code, after_verdict, verdict_on,
  has_code, submit_otp,
}
use smart_access_gateway.Endpoints.Authorize.Handlers.{
  is_given, Loaded, asks_code, with_address, with_email, submit_email, email_given,
}
use smart_access_gateway.Endpoints.Authorize.Steps.{no_stage, route-Ends}
use smart_access_gateway.Endpoints.Authorize.Demands.{
  Ends, Ends-continue, Ends-if, IsHonest, send_otp-Ends,
}

module _ {S : Type 0} (config : FlowConfig) (platform : Platform S) (moment : Moment) where
  with_address-Ends :
      (services : RequestServices) (requests : RequestConfig) (params : Params)
      (ready : Transaction) (s : S)
      → Ends
          (IsHonest config platform)
          (with_address services requests config platform moment params ready s).0
  unfolding with_address
  with_address-Ends services requests params ready s =
      Ends-continue (IsHonest config platform) _ (single params "method") s (λ method t.
        Ends-if (IsHonest config platform)
          (asks_code services requests config platform moment ready method) _ _ t
          (λ asked.
            send_otp-Ends config platform moment ready false t
              (λ allowed. demand_free (is_given method) _ config.otp.enabled _ asked))
          (λ other. route-Ends config platform moment ready t))
    where
      demand_free : (a b c d : Bool) → (a && b && c && not d) ≡ true → d ≡ false
      demand_free a b c d h = ground arith

  pub submit_email-Ends :
      (services : RequestServices) (requests : RequestConfig) (params : Params) (loaded : Loaded)
      (s : S)
      → Ends
          (IsHonest config platform)
          (submit_email services requests config platform moment params loaded s).0
  unfolding submit_email render_email
  submit_email-Ends services requests params loaded s =
      Ends-continue (IsHonest config platform) _ (single params "remember_me") s (λ remember_me t.
        Ends-continue (IsHonest config platform) _ (single params "email") t
          (λ given u. go remember_me u (email_given given)))
    where
      go :
          (remember_me : Option Text) (u : S) (address : Option Text)
          → Ends
              (IsHonest config platform)
              (with_email services requests config platform moment params
                (record (loaded.tx) { remember_me = some (is_given remember_me) })
                address
                u).0
      go remember_me u none = λ stage. absurd (no_stage stage)
      go remember_me u (some address) =
          with_address-Ends services requests params
            (record (loaded.tx) { remember_me = some (is_given remember_me); email = some address })
            u

  pub request_otp-Ends :
      (tx : Transaction) (s : S)
      → Ends (IsHonest config platform) (request_otp config platform moment tx s).0
  unfolding request_otp
  request_otp-Ends tx s =
      Ends-if (IsHonest config platform)
        (not (otp_allowed config.otp (address_of tx)) || requires_federation tx.request.acr_values)
        _ _ s (λ refused. tt)
        (λ free. send_otp-Ends config platform moment tx false s (λ allowed. neither _ _ free))
    where
      neither : (a b : Bool) → (not a || b) ≡ false → b ≡ false
      neither a b h = ground arith

  pub resend_otp-Ends :
      (tx : Transaction) (s : S)
      → IsHonest config platform tx
      → Ends (IsHonest config platform) (resend_otp config platform moment tx s).0
  unfolding resend_otp
  resend_otp-Ends tx s honest =
      Ends-if (IsHonest config platform) (length (address_of tx) == 0 || not (is_otp tx.stage)) _ _
        s (λ refused. tt)
        (λ waiting. send_otp-Ends config platform moment tx true s (honest (staged _ _ waiting)))
    where
      staged : (a b : Bool) → (a || not b) ≡ false → b ≡ true
      staged a b h = ground arith

  attempt-IsHonest :
      (tx : Transaction)
      → IsHonest config platform tx
      → IsHonest config platform (with_otp_attempt tx)
  unfolding with_otp_attempt
  attempt-IsHonest tx honest = go tx.otp
    where
      go :
          (o : Option OtpState)
          → IsHonest config platform
              (elim o [ none ↦ tx | some o ↦ record tx { otp = some (one_attempt o) } ])
      go none = honest
      go (some o) = honest

  pub submit_otp-Ends :
      (tx : Transaction) (client : Client) (params : Params) (s : S)
      → IsHonest config platform tx
      → Ends (IsHonest config platform) (submit_otp config platform moment tx client params s).0
  unfolding submit_otp after_verdict accept_code complete
  submit_otp-Ends tx client params s honest =
      Ends-if (IsHonest config platform) (has_code config platform moment tx) _ _ s
        (λ waiting.
          Ends-continue (IsHonest config platform) _ (single params "code") s
            (λ submitted t. go t (verdict_on config platform moment tx submitted)))
        (λ lost. tt)
    where
      go :
          (t : S) (v : Verdict)
          → Ends (IsHonest config platform) (after_verdict config platform moment tx client v t).0
      go t accepted =
          Ends-continue (IsHonest config platform)
            (λ existing. from_result (
              ok (
                complete config platform moment tx client
                  (code_session config platform moment tx existing))))
            (session_of config platform moment client t).0
            (session_of config platform moment client t).1 (λ existing u. tt)
      go t no_code = attempt-IsHonest tx honest
      go t expired = attempt-IsHonest tx honest
      go t too_many_attempts = attempt-IsHonest tx honest
      go t mismatch = attempt-IsHonest tx honest
