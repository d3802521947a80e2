-- ===== src/Endpoints/Authorize/Demands.antt =====
-- A sign-in by code never answers a request that demands more. The flow is a step relation on the
-- transactions that the pages carry.
use smart_access_gateway.Prelude.{
  ◌≡◌, refl, inl, inr, Bool, true, false, not, ◌&&◌, Option, none, some, Result, ok, err, length,
  ltb, ◌==◌, nat_eq, string_eq, if◌then◌else◌, Bool-cases,
}
use smart_access_gateway.Util.Bytes.{Text}
use smart_access_gateway.Errors.{OauthError, Failure}
use smart_access_gateway.Otp.{otp_allowed}
use smart_access_gateway.Limits.{Decision}
use smart_access_gateway.Acr.{requires_federation}
use smart_access_gateway.Oauth.Transaction.{OtpState, with_otp}
use smart_access_gateway.Endpoints.Handler.{Handler, continue_with}
use smart_access_gateway.Endpoints.Authorize.{
  Target, Transaction, Answer, email_page, otp_page, password_page, password_refused,
  second_factor_page, continue_page, chooser_page, relayed_error, error_page, FlowConfig, Platform,
  Moment,
}
use smart_access_gateway.Endpoints.Authorize.Complete.{failure_response}
use smart_access_gateway.Endpoints.Authorize.Codes.{
  resend_count, address_of, is_otp, drawn, kept, delivered, after_limit, send_otp,
}

-- The transaction that an answer puts into the browser's hands, and a property of it.
abbrev pub carried : Answer → Option Transaction
carried (email_page tx address failed) = some tx
carried (otp_page tx notice dev_code resent) = some tx
carried (password_page tx) = some tx
carried (password_refused tx) = some tx
carried (second_factor_page tx digits failed) = some tx
carried (continue_page tx session) = some tx
carried (chooser_page tx upstreams hinted) = some tx
carried other = none

abbrev pub Holds : (Transaction → Type 0) → Option Transaction → Type 0
Holds P none = Unit
Holds P (some tx) = P tx

abbrev pub Ends : (Transaction → Type 0) → Result Failure Answer → Type 0
Ends P (ok answer) = Holds P (carried answer)
Ends P (err f) = Unit

-- What follows a step keeps the property where each of its outcomes does.
pub Ends-continue :
    {S A : Type 0} (P : Transaction → Type 0) (next : A → Handler S Answer) (r : Result Failure A)
    (s : S)
    → ((a : A) (t : S) → Ends P (next a t).0)
    → Ends P (continue_with next r s).0
Ends-continue P next (ok a) s h = h a s
Ends-continue P next (err f) s h = tt

pub Ends-if :
    {S : Type 0} (P : Transaction → Type 0) (test : Bool) (m n : Handler S Answer) (s : S)
    → (test ≡ true → Ends P (m s).0)
    → (test ≡ false → Ends P (n s).0)
    → Ends P ((if test then m else n) s).0
Ends-if P true m n s h k = h refl
Ends-if P false m n s h k = k refl

pub failure_response-Holds :
    (P : Transaction → Type 0) (e : OauthError) (target : Target)
    → Holds P (carried (failure_response e target))
unfolding failure_response
failure_response-Holds P e target = go target.redirect_uri
  where
    go :
        (uri : Option Text)
        → Holds P (
            carried (elim uri [
              | none ↦ error_page e.status
              | some u ↦
                  if not (length u == 0) && e.redirectable
                  then relayed_error u target.state target.response_mode e
                  else error_page e.status
            ]))
    go none = tt
    go (some u) = elim (Bool-cases (not (length u == 0) && e.redirectable)) [
      | inl h ↦ rw h tt
      | inr h ↦ rw h tt
    ]

module _ {S : Type 0} (config : FlowConfig) (platform : Platform S) where
  -- A code may be sent: the request asks for nothing that a code cannot give, or no route serves
  -- the address and the code stays unsent.
  abbrev pub MaySend : Transaction → Type 0
  MaySend tx =
      otp_allowed config.otp (address_of tx) ≡ true
      → requires_federation tx.request.acr_values ≡ false

  -- A transaction that waits for a code is one for which a code may be sent.
  abbrev pub IsHonest : Transaction → Type 0
  IsHonest tx = is_otp tx.stage ≡ true → MaySend tx

  module _ (moment : Moment) where
    drawn-IsHonest :
        (tx : Transaction) (resend : Bool)
        → MaySend tx
        → IsHonest (drawn config platform moment tx resend)
    unfolding drawn with_otp
    drawn-IsHonest tx resend may stage = may

    kept-IsHonest :
        (tx : Transaction) (resend : Bool)
        → MaySend tx
        → IsHonest (kept config platform moment tx resend)
    unfolding kept with_otp
    kept-IsHonest tx resend may = go tx.otp refl
      where
        go : (o : Option OtpState) → tx.otp ≡ o → IsHonest (kept config platform moment tx resend)
        go none e = rw e (λ stage. may)
        go (some o) e = rw e (λ stage. may)

    after_limit-Holds :
        (tx : Transaction) (resend : Bool) (limit : Decision)
        → MaySend tx
        → Holds IsHonest (carried (after_limit config platform moment tx resend limit))
    unfolding after_limit
    after_limit-Holds tx resend limit may = elim (Bool-cases limit.allowed) [
      | inr refused ↦ rw refused (kept-IsHonest tx resend may)
      | inl allowed ↦ elim (Bool-cases (otp_allowed config.otp (address_of tx))) [
        | inr decoy ↦ rw (allowed, decoy) (drawn-IsHonest tx resend may)
        | inl served ↦ rw (allowed, served) (sent (platform.send (address_of tx) moment.code))
      ]
    ]
      where
        sent :
            (r : Option (Option Text))
            → Holds IsHonest (
                carried (
                  delivered config platform moment
                    (drawn config platform moment tx resend)
                    resend
                    r))
        sent none = drawn-IsHonest tx resend may
        sent (some dev) = drawn-IsHonest tx resend may

    pub send_otp-Ends :
        (tx : Transaction) (resend : Bool) (s : S)
        → MaySend tx
        → Ends IsHonest (send_otp config platform moment tx resend s).0
    unfolding send_otp
    send_otp-Ends tx resend s may =
        elim (Bool-cases (ltb config.max_resends (resend_count config platform moment tx resend))) [
          | inl many ↦ rw many (λ stage. may)
          | inr few ↦ rw few (after_limit-Holds tx resend _ may)
        ]
