-- ===== src/Totp/Verify.antt =====
-- What a verified one-time password shows.
use smart_access_gateway.Prelude.{
  ℕ, zero, suc, ◌+◌, ◌-◌, ◌/◌, ◌≤◌, ◌<◌, String, ◌≡◌, sym, ap, ◌∙◌, ◌⊎◌, inl, inr, true, false, not,
  ◌&&◌, ◌||◌, Option, none, some, List, [], arith, Result, ok, throw_if, >>=-eq-ok, length, all,
  ltb, leb, ◌==◌, nat_eq, string_eq, Bool-cases,
}
use smart_access_gateway.Util.Bytes.{Text, timing_safe_equal}
use smart_access_gateway.Util.Bytes.Compare.{timing_safe_equal_iff}
use smart_access_gateway.Util.Text.{text_Eq}
use smart_access_gateway.Crypto.Jose.Claims.{>>-eq-ok}
use smart_access_gateway.Totp.{
  Attempt, presented_of, is_unused, greater, is_digit, totp_for_step, try_step, try_steps,
  verify_totp,
}

ok_inj : (a b : Option ℕ) → ◌≡◌ {A = Result String (Option ℕ)} (ok a) (ok b) → a ≡ b
ok_inj a b h = cc

none_ok : (step : ℕ) → ◌≡◌ {A = Result String (Option ℕ)} (ok none) (ok (some step)) → ⊥
none_ok step k = cc

some_inj : {a b : ℕ} → ◌≡◌ {A = Option ℕ} (some a) (some b) → a ≡ b
some_inj k = cc

greater-cases :
    (matched : Option ℕ) (c s : ℕ) → greater matched c ≡ s → (matched ≡ some s) ⊎ (c ≡ s)
greater-cases none c s h = inr h
greater-cases (some m) c s h = elim (Bool-cases (leb c m)) [
  | inl e ↦ inl (ap some (omega (arith, leb_le c m e)))
  | inr e ↦ inr (omega (arith, leb_gt c m e))
]
  where
    leb_le : (a b : ℕ) → leb a b ≡ true → a ≤ b
    leb_le a b k = ground arith

    leb_gt : (a b : ℕ) → leb a b ≡ false → b < a
    leb_gt a b k = ground arith

module _ (hmac : String → (key message : List ℕ) → List ℕ) where
  -- A step that the code is right for and that has not been used.
  pub record IsRight (attempt : Attempt) (presented : Text) (step : ℕ) : Type 0 where
    pub code :
        totp_for_step hmac attempt.secret step attempt.algorithm attempt.digits ≡ ok presented
    pub fresh : is_unused attempt.last_used_step step ≡ true

  try_step-ok :
      (attempt : Attempt) (presented : Text) (step : ℕ) (matched m : Option ℕ)
      → try_step hmac attempt presented step matched ≡ ok m
      → (IsRight attempt presented step × (m ≡ some (greater matched step))) ⊎ (m ≡ matched)
  unfolding try_step
  try_step-ok attempt presented step matched m h =
      let (expected, made, h1) =
        >>=-eq-ok (totp_for_step hmac attempt.secret step attempt.algorithm attempt.digits) _ h in
      elim (Bool-cases
        (timing_safe_equal expected presented && is_unused attempt.last_used_step step)) [
          | inl e ↦
              let k = ok_inj _ _ (rw e at h1) in
              inl (
                record {
                  code = made ∙ ap ok ((timing_safe_equal_iff _ _).0 (ground arith));
                  fresh = ground arith;
                },
                sym k,
              )
          | inr e ↦ inr (sym (ok_inj _ _ (rw e at h1)))
        ]

  -- The answer of the loop is the one it started from, or a right step among the candidates.
  try_steps_sound :
      (attempt : Attempt) (presented : Text) (n last : ℕ) (matched : Option ℕ) (step : ℕ)
      → try_steps hmac attempt presented n last matched ≡ ok (some step)
      → (matched ≡ some step) ⊎ (IsRight attempt presented step × (step ≤ last) × (last < step + n))
  unfolding try_steps
  try_steps_sound attempt presented zero last matched step h = inl (ok_inj _ _ h)
  try_steps_sound attempt presented (suc n) last matched step h = elim (Bool-cases (ltb last n)) [
    | inl e ↦ elim (try_steps_sound attempt presented n last matched step (rw e at h)) [
      | inl same ↦ inl same
      | inr (right, le, lt) ↦ inr (right, le, omega arith)
    ]
    | inr e ↦
        let (next, tried, h1) =
          >>=-eq-ok (try_step hmac attempt presented (last - n) matched) _ (rw e at h) in
        elim (try_steps_sound attempt presented n last next step h1) [
          | inr (right, le, lt) ↦ inr (right, le, omega arith)
          | inl same ↦ elim (try_step-ok attempt presented (last - n) matched next tried) [
            | inr kept ↦ inl (sym kept ∙ same)
            | inl (right, found) ↦
                elim (greater-cases matched (last - n) step (some_inj (sym found ∙ same))) [
                  | inl kept ↦ inl kept
                  | inr here ↦ inr (rw (← here) (right, omega arith, omega arith))
                ]
          ]
        ]
  ]

  -- An accepted code is that of the step that is answered, which lies within the skew of the
  -- current one and is later than the one last used.
  pub verify_totp_sound :
      (attempt : Attempt) (step : ℕ)
      → verify_totp hmac attempt ≡ ok (some step)
      → IsRight attempt (presented_of attempt.code) step
        × (step ≤ attempt.now / 1000 / attempt.period + attempt.skew)
        × (attempt.now / 1000 / attempt.period ≤ step + attempt.skew)
  unfolding verify_totp
  verify_totp_sound attempt step h =
      let presented = presented_of attempt.code in
      elim (Bool-cases (
        not (length presented == attempt.digits)
        || not (all is_digit presented)
        || presented == [])) [
          | inl e ↦ absurd (none_ok step (rw e at h))
          | inr e ↦
              let (period, h1) =
                >>-eq-ok
                  (throw_if (ltb attempt.period 15 || ltb 120 attempt.period) "invalid TOTP period")
                  _ (rw e at h) in
              let (skew, h2) = >>-eq-ok (throw_if (ltb 5 attempt.skew) "invalid TOTP skew") _ h1 in
              elim (try_steps_sound attempt presented (attempt.skew + attempt.skew + 1)
                (attempt.now / 1000 / attempt.period + attempt.skew) none step h2) [
                  | inl start ↦ cc
                  | inr (right, le, lt) ↦ (right, le, omega arith)
                ]
        ]
