-- ===== src/Endpoints/Authorize/Codes.antt =====
-- Sending, resending and checking an emailed code.
use smart_access_gateway.Prelude.{
  ℕ, ◌+◌, ◌-◌, Bool, true, false, not, ◌||◌, Option, none, some, [], map, ok, length, ltb, ◌==◌,
  nat_eq, string_eq, if◌then◌else◌, or_default,
}
use smart_access_gateway.Util.Bytes.{Text}
use smart_access_gateway.Util.Text.{text_Eq, spell}
use smart_access_gateway.Util.Http.{Params, single}
use smart_access_gateway.Session.{Session, Authentication, new_session, reauthenticate}
use smart_access_gateway.Limits.{Decision, check_otp_send_allowed}
use smart_access_gateway.Otp.{
  otp_allowed, verify_code, Verdict, accepted, no_code, expired, too_many_attempts, mismatch,
}
use smart_access_gateway.Acr.{acr_for_otp, requires_federation}
use smart_access_gateway.Profile.{Held}
use smart_access_gateway.Clients.{Client}
use smart_access_gateway.Oauth.Transaction.{OtpState, Stage, otp, with_otp, with_otp_attempt}
use smart_access_gateway.Endpoints.Handler.{Handler, from_result, ◌>>=◌}
use smart_access_gateway.Endpoints.Authorize.{
  Transaction, Answer, otp_page, start_again, Notice, too_many_codes, not_sent, code_expired,
  wrong_code, FlowConfig, Platform, Moment,
}
use smart_access_gateway.Endpoints.Authorize.Complete.{given_id, session_of, complete}

abbrev pub address_of : Transaction → Text
address_of tx = or_default tx.email []

-- `tx.otp?.resends ?? 0` and `tx.otp?.attempts ?? 0`
abbrev pub resends_so_far : Option OtpState → ℕ
resends_so_far none = 0
resends_so_far (some o) = o.resends

abbrev pub attempts_so_far : Option OtpState → ℕ
attempts_so_far none = 0
attempts_so_far (some o) = o.attempts

abbrev pub is_otp : Stage → Bool
is_otp otp = true
is_otp other = false

module _ {S : Type 0} (config : FlowConfig) (platform : Platform S) (moment : Moment) where
  abbrev pub code_digest : Transaction → Text → Text
  code_digest tx code = platform.digest tx.id (address_of tx) code

  abbrev pub resend_count : Transaction → Bool → ℕ
  resend_count tx resend = if resend then resends_so_far tx.otp + 1 else 0

  -- The transaction of a code that was drawn, and that of a send which the limit refused.
  unfoldable pub drawn : Transaction → Bool → Transaction
  drawn tx resend =
      with_otp moment.now tx (code_digest tx moment.code) (moment.now + config.otp_ttl_seconds)
        (resend_count tx resend)

  unfoldable pub kept : Transaction → Bool → Transaction
  kept tx resend = elim tx.otp [
    | some o ↦ tx
    | none ↦
        with_otp moment.now tx [] (moment.now + config.otp_ttl_seconds) (resend_count tx resend)
  ]

  abbrev pub delivered : Transaction → Bool → Option (Option Text) → Answer
  delivered next resend none = otp_page next (some not_sent) none false
  delivered next resend (some dev_code) = otp_page next none dev_code resend

  -- What follows the limit: an address that no route can serve is shown the same page, unsent.
  unfoldable pub after_limit : Transaction → Bool → Decision → Answer
  after_limit tx resend limit =
      if not limit.allowed
      then otp_page (kept tx resend) none none resend
      else if not (otp_allowed config.otp (address_of tx))
      then otp_page (drawn tx resend) none none resend
      else delivered (drawn tx resend) resend (platform.send (address_of tx) moment.code)

  -- `sendOtp`
  unfoldable pub send_otp : Transaction → Bool → Handler S Answer
  send_otp tx resend s =
      if ltb config.max_resends (resend_count tx resend)
      then (ok (otp_page tx (some too_many_codes) none false), s)
      else let (limit, t) =
          check_otp_send_allowed platform.keys platform.store config.limits moment.now
            (address_of tx) s in
        (ok (after_limit tx resend limit), t)

  -- `handleOtpRequest` and `handleResend`, from the transaction that is loaded.
  unfoldable pub request_otp : Transaction → Handler S Answer
  request_otp tx =
      if not (otp_allowed config.otp (address_of tx)) || requires_federation tx.request.acr_values
      then from_result (ok start_again)
      else send_otp tx false

  unfoldable pub resend_otp : Transaction → Handler S Answer
  resend_otp tx =
      if length (address_of tx) == 0 || not (is_otp tx.stage)
      then from_result (ok start_again)
      else send_otp tx true

  -- The arguments of the session of somebody who typed the code back.
  unfoldable pub code_sign_in : Transaction → Authentication Held
  code_sign_in tx = record {
    email_verified = some true;
    acr = acr_for_otp.acr;
    amr = some (map spell acr_for_otp.amr);
    auth_time = none;
    upstream = none;
    upstream_label = none;
    claims = platform.guess (address_of tx);
    local_identity_id = none;
    local_identity_key = none;
    local_security_version = none;
  }

  abbrev pub same_person : Transaction → Session Held → Bool
  same_person tx session = elim (given_id session.local_identity_id) [
    | none ↦ session.email == address_of tx
    | some id ↦ false
  ]

  unfoldable pub code_session : Transaction → Option (Session Held) → Session Held
  code_session tx none =
      new_session config.session moment.now moment.sid (address_of tx) (code_sign_in tx)
  code_session tx (some existing) =
      if same_person tx existing
      then reauthenticate config.session moment.now existing (some (address_of tx))
          (code_sign_in tx)
      else new_session config.session moment.now moment.sid (address_of tx) (code_sign_in tx)

  unfoldable pub verdict_on : Transaction → Option Text → Verdict
  verdict_on tx submitted =
      verify_code moment.now config.max_attempts (code_digest tx) tx.otp (or_default submitted [])

  abbrev pub refusal : Transaction → Verdict → Answer
  refusal tx expired = otp_page (with_otp_attempt tx) (some code_expired) none false
  refusal tx too_many_attempts =
      otp_page (with_otp_attempt tx) (some Notice.too_many_attempts) none false
  refusal tx other =
      otp_page (with_otp_attempt tx)
        (some (wrong_code (config.max_attempts - attempts_so_far (with_otp_attempt tx).otp))) none
        false

  unfoldable pub accept_code : Transaction → Client → Handler S Answer
  accept_code tx client = do
    existing ← session_of config platform moment client
    from_result (ok (complete config platform moment tx client (code_session tx existing)))

  unfoldable pub after_verdict : Transaction → Client → Verdict → Handler S Answer
  after_verdict tx client accepted = accept_code tx client
  after_verdict tx client no_code = from_result (ok (refusal tx no_code))
  after_verdict tx client expired = from_result (ok (refusal tx expired))
  after_verdict tx client too_many_attempts = from_result (ok (refusal tx too_many_attempts))
  after_verdict tx client mismatch = from_result (ok (refusal tx mismatch))

  abbrev pub has_code : Transaction → Bool
  has_code tx = elim tx.otp [ none ↦ false | some o ↦ is_otp tx.stage ]

  -- `handleOtpSubmit`, from the transaction that is loaded.
  unfoldable pub submit_otp : Transaction → Client → Params → Handler S Answer
  submit_otp tx client params =
      if has_code tx
      then (do
        submitted ← from_result (single params "code")
        after_verdict tx client (verdict_on tx submitted))
      else from_result (ok start_again)
