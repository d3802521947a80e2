-- ===== src/Limits/Windows.antt =====
-- The limit on mail: how long a refused person is told to wait, and what an outage does.
use native.Mathlib.Omega.{div_any, mod_fact}
use smart_access_gateway.Prelude.{
  ℕ, zero, suc, ◌+◌, ◌*◌, ◌/◌, ◌≤◌, ◌<◌, String, ◌≡◌, refl, ◌≢◌, inl, inr, true, false, not, ◌&&◌,
  Option, some, arith, Result, ok, err, ltb, ◌==◌, nat_eq, string_eq, Bool-cases,
}
use smart_access_gateway.Util.Bytes.{Text}
use smart_access_gateway.Store.{StateStore, StoreError}
use smart_access_gateway.Limits.{
  Reason, or_wait, send_allowed, OtpLimits, Decision, Keys, day, window_reason, daily_reason,
  rest_of_window, check_daily, check_window, check_otp_send_allowed, address_key,
}

-- The rest of a window is its distance from the next one: neither zero nor more than a window.
rest_of_window-bounds :
    (window now : ℕ)
    → 0 < window
    → (0 < rest_of_window window now)
      × (rest_of_window window now ≤ window)
      × ((now + rest_of_window window now) ≡ (now / window + 1) * window)
rest_of_window-bounds zero now pos = ground arith
rest_of_window-bounds (suc w) now pos = grind (arith, div_any now (suc w), mod_fact now w)

-- The window that a reason stands for.
pub data IsWindowOf (limits : OtpLimits) : Option Reason → ℕ → Type 0 where
  of_burst : IsWindowOf limits (some window_reason) limits.send_window_seconds
  of_day : IsWindowOf limits (some daily_reason) day

-- What a refusal tells: the window that refused, and the seconds until the next one.
pub record IsRefusal (limits : OtpLimits) (now : ℕ) (d : Decision) : Type 0 where
  pub enforced : d.enforced ≡ true
  pub window : ℕ
  pub of_reason : IsWindowOf limits d.reason window
  pub seconds : ℕ
  pub retry : d.retry_after_seconds ≡ some seconds
  pub positive : 0 < seconds
  pub within_window : seconds ≤ window
  pub at_next : now + seconds ≡ (now / window + 1) * window

module _ {S : Type 0} (keys : Keys) (store : StateStore S) (limits : OtpLimits) (now : ℕ) where
  or_wait-IsRefusal :
      (reason : Reason) (limit window : ℕ) (continue : S → Decision × S)
      (out : Result StoreError ℕ × S)
      → 0 < window
      → IsWindowOf limits (some reason) window
      → ((t : S) → (continue t).0.allowed ≡ false → IsRefusal limits now (continue t).0)
      → (or_wait keys store reason limit window now continue out).0.allowed ≡ false
      → IsRefusal limits now (or_wait keys store reason limit window now continue out).0
  or_wait-IsRefusal reason limit window continue (err e, t) pos of_limits next h = cc
  or_wait-IsRefusal reason limit window continue (ok used, t) pos of_limits next h =
      elim (Bool-cases (ltb limit used)) [
        | inl over ↦
            let (positive, at_most, at_next) = rest_of_window-bounds window now pos in
            rw over (record {
              enforced = refl;
              window = window;
              of_reason = of_limits;
              seconds = rest_of_window window now;
              retry = refl;
              positive = positive;
              within_window = at_most;
              at_next = at_next;
            })
        | inr under ↦ rw under (next t (rw under at h))
      ]

  daily-IsRefusal :
      (tag : String) (s : S)
      → (check_daily keys store limits now tag s).0.allowed ≡ false
      → IsRefusal limits now (check_daily keys store limits now tag s).0
  unfolding check_daily
  daily-IsRefusal tag s h = elim (Bool-cases (ltb 0 limits.send_daily_limit)) [
    | inl on ↦ rw on (
        or_wait-IsRefusal daily_reason limits.send_daily_limit day (λ t. (send_allowed, t)) _
          (omega arith) of_day (λ t k. cc) (rw on at h))
    | inr off ↦ absurd (not_false (rw off at h))
  ]
    where
      not_false : true ≢ false
      not_false e = cc

  window-IsRefusal :
      (tag : String) (s : S)
      → (check_window keys store limits now tag s).0.allowed ≡ false
      → IsRefusal limits now (check_window keys store limits now tag s).0
  unfolding check_window
  window-IsRefusal tag s h =
      elim (Bool-cases (ltb 0 limits.send_window_seconds && ltb 0 limits.send_burst)) [
        | inl on ↦ rw on (
            or_wait-IsRefusal window_reason limits.send_burst limits.send_window_seconds
              (check_daily keys store limits now tag) _ (ground arith) of_burst
              (daily-IsRefusal tag) (rw on at h))
        | inr off ↦ rw off (daily-IsRefusal tag s (rw off at h))
      ]

  -- With a state store, a refusal to send a code is enforced and names its reason, and the wait that
  -- it names is positive, at most the window of that reason (the configured one or the day), and
  -- ends exactly where the next such window begins.
  pub check_otp_send_allowed-IsRefusal :
      (email : Text) (s : S)
      → (check_otp_send_allowed keys (some store) limits now email s).0.allowed ≡ false
      → IsRefusal limits now (check_otp_send_allowed keys (some store) limits now email s).0
  unfolding check_otp_send_allowed
  check_otp_send_allowed-IsRefusal email s h =
      elim (Bool-cases (
        not (ltb 0 limits.send_window_seconds && ltb 0 limits.send_burst)
        && limits.send_daily_limit == 0)) [
          | inl off ↦ absurd (ground (arith, rw off at h))
          | inr on ↦ rw on (window-IsRefusal (address_key keys email) s (rw on at h))
        ]
