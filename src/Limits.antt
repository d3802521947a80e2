-- ===== src/Limits.antt =====
-- src/store/limits.js: the rate limits on mail and on local credentials. The keyed hash of
-- `crypto/secrets.js` and the decimal text of a number are arguments, as is the clock.
pub mod Windows
pub mod Lockout
use Prim.Native.String.{◌++◌ as str_append}
use smart_access_gateway.Prelude.{
  ℕ, ◌+◌, ◌-◌, ◌*◌, ◌/◌, String, Bool, true, false, not, ◌&&◌, Option, none, some, [], ◌∷◌, Result,
  ok, err, ltb, leb, ◌==◌, nat_eq, string_eq, if◌then◌else◌,
}
use smart_access_gateway.Util.Bytes.{Text}
use smart_access_gateway.Util.Text.{to_lower}
use smart_access_gateway.Identity.{strip_plus_tag}
use smart_access_gateway.Store.{StateStore, StoreError}

pub record OtpLimits : Type 0 where
  pub send_window_seconds : ℕ
  pub send_burst : ℕ
  pub send_daily_limit : ℕ

pub record LocalLimits : Type 0 where
  pub attempt_window_seconds : ℕ
  pub max_attempts : ℕ
  pub network_max_attempts : ℕ

pub data Reason : Type 0 where
  window_reason : Reason
  daily_reason : Reason
  limit_reason : Reason
  store_reason : Reason

pub record Decision : Type 0 where
  pub allowed : Bool
  pub enforced : Bool
  pub reason : Option Reason
  pub retry_after_seconds : Option ℕ
  pub degraded : Bool

-- The parts of `crypto/secrets.js` and of the language that the keys of the counters use.
pub record Keys : Type 0 where
  pub address_tag : Text → String
  pub network_tag : Text → String
  pub decimal : ℕ → String

abbrev pub day : ℕ
day = 86400

unfoldable pub address_key : Keys → Text → String
address_key keys email = keys.address_tag (strip_plus_tag (to_lower email))

unfoldable pub counter_key : Keys → String → String → ℕ → String
counter_key keys prefix tag bucket =
    str_append prefix (str_append tag (str_append ":" (keys.decimal bucket)))

abbrev pub not_enforced : Decision
not_enforced = record {
  allowed = true;
  enforced = false;
  reason = none;
  retry_after_seconds = none;
  degraded = false;
}

abbrev pub send_allowed : Decision
send_allowed = record not_enforced { enforced = true }

abbrev pub degraded_send : Decision
degraded_send = record not_enforced { degraded = true }

abbrev pub wait : Reason → ℕ → Decision
wait reason seconds = record {
  allowed = false;
  enforced = true;
  reason = some reason;
  retry_after_seconds = some seconds;
  degraded = false;
}

-- `(bucket + 1) * window - now`
abbrev pub rest_of_window : ℕ → ℕ → ℕ
rest_of_window window now = (now / window + 1) * window - now

abbrev pub denied : Reason → Bool → Decision
denied reason enforced = record {
  allowed = false;
  enforced = enforced;
  reason = some reason;
  retry_after_seconds = none;
  degraded = false;
}

module _ {S : Type 0} (keys : Keys) (store : StateStore S) where
  -- What follows a count against a limit: an error of the store fails open.
  abbrev pub or_wait :
      Reason → ℕ → ℕ → ℕ → (S → Decision × S) → Result StoreError ℕ × S → Decision × S
  or_wait reason limit window now continue (err e, s) = (degraded_send, s)
  or_wait reason limit window now continue (ok used, s) =
      if ltb limit used then (wait reason (rest_of_window window now), s) else continue s

  unfoldable pub check_daily : OtpLimits → ℕ → String → S → Decision × S
  check_daily limits now tag s =
      if ltb 0 limits.send_daily_limit
      then or_wait daily_reason limits.send_daily_limit day now (λ t. (send_allowed, t))
          (store.increment now (counter_key keys "otp-day:" tag (now / day)) day false s)
      else (send_allowed, s)

  unfoldable pub check_window : OtpLimits → ℕ → String → S → Decision × S
  check_window limits now tag s =
      if ltb 0 limits.send_window_seconds && ltb 0 limits.send_burst
      then or_wait window_reason limits.send_burst limits.send_window_seconds now
          (check_daily limits now tag)
          (store.increment now (counter_key keys "otp-send:" tag (now / limits.send_window_seconds))
            limits.send_window_seconds false s)
      else check_daily limits now tag s

module _ {S : Type 0} (keys : Keys) where
  -- `checkOtpSendAllowed`
  unfoldable pub check_otp_send_allowed :
      Option (StateStore S) → OtpLimits → ℕ → Text → S → Decision × S
  check_otp_send_allowed none limits now email s = (not_enforced, s)
  check_otp_send_allowed (some store) limits now email s =
      if not (ltb 0 limits.send_window_seconds && ltb 0 limits.send_burst)
        && limits.send_daily_limit == 0
      then (not_enforced, s)
      else check_window keys store limits now (address_key keys email) s

  -- An error of the store denies the attempt.
  abbrev pub within : ℕ → Result StoreError ℕ × S → Decision × S
  within limit (err e, s) = (denied store_reason false, s)
  within limit (ok used, s) =
      if leb used limit then (send_allowed, s) else (denied limit_reason true, s)

  unfoldable pub check_address : StateStore S → LocalLimits → ℕ → Text → String → S → Decision × S
  check_address store limits now email factor s =
      let window = limits.attempt_window_seconds in
      within limits.max_attempts (
        store.increment now
          (counter_key keys (str_append "local-" (str_append factor ":address:"))
            (address_key keys email) (now / window))
          window true s)

  abbrev pub after_network : ℕ → (S → Decision × S) → Result StoreError ℕ × S → Decision × S
  after_network limit continue (err e, s) = (denied store_reason false, s)
  after_network limit continue (ok used, s) =
      if ltb limit used then (denied limit_reason true, s) else continue s

  -- The network address of the request, first: an absent or an empty header skips it.
  unfoldable pub check_network :
      StateStore S → LocalLimits → ℕ → Option Text → Text → String → S → Decision × S
  check_network store limits now none email factor s = check_address store limits now email factor s
  check_network store limits now (some []) email factor s =
      check_address store limits now email factor s
  check_network store limits now (some (c ∷ network)) email factor s =
      let window = limits.attempt_window_seconds in
      if ltb 0 limits.network_max_attempts
      then after_network limits.network_max_attempts (check_address store limits now email factor) (
          store.increment now
            (counter_key keys (str_append "local-" (str_append factor ":network:"))
              (keys.network_tag (c ∷ network)) (now / window))
            window true s)
      else check_address store limits now email factor s

  -- `checkLocalAuthAllowed`; a window that is not positive does not pass the configuration.
  unfoldable pub check_local_auth_allowed :
      Option (StateStore S) → LocalLimits → ℕ → Option Text → Text → String → S → Decision × S
  check_local_auth_allowed none limits now network email factor s = (denied store_reason false, s)
  check_local_auth_allowed (some store) limits now network email factor s =
      check_network store limits now network email factor s
