-- ===== src/Endpoints/Authorize/Decoys.antt =====
-- The step that sends a code, under two policies on who may use codes.
use smart_access_gateway.Prelude.{◌≡◌, refl, Bool, none, some, arith}
use smart_access_gateway.Otp.{OtpConfig}
use smart_access_gateway.Limits.{Decision}
use smart_access_gateway.Endpoints.Authorize.{Transaction, FlowConfig, Platform, Moment}
use smart_access_gateway.Endpoints.Authorize.Codes.{address_of, send_otp, after_limit, drawn, kept}

-- The same deployment with another policy on who may sign in by code.
abbrev pub with_policy : FlowConfig → OtpConfig → FlowConfig
with_policy config policy = record config { otp = policy }

module _ {S : Type 0} (config : FlowConfig) (platform : Platform S) (moment : Moment) where
  after_limit-after_limit :
      (policy other : OtpConfig) (tx : Transaction) (resend : Bool) (limit : Decision)
      → platform.send (address_of tx) moment.code ≡ some none
      → after_limit (with_policy config policy) platform moment tx resend limit
        ≡ after_limit (with_policy config other) platform moment tx resend limit
  unfolding after_limit drawn kept
  after_limit-after_limit policy other tx resend limit sent = rw sent (ground arith)

  -- The step that sends a code does not tell whether the policy lets an address use codes: where
  -- mail to the address is accepted, if sent, and no development code is shown, the step has, for a
  -- first code and for another one, the same answer and the same effect on the store under every
  -- such policy.
  pub send_otp_decoy :
      (policy other : OtpConfig) (tx : Transaction) (resend : Bool) (s : S)
      → platform.send (address_of tx) moment.code ≡ some none
      → send_otp (with_policy config policy) platform moment tx resend s
        ≡ send_otp (with_policy config other) platform moment tx resend s
  unfolding send_otp
  send_otp_decoy policy other tx resend s sent =
      rw (after_limit-after_limit policy other tx resend _ sent) refl
