-- ===== src/Otp/Verify.antt =====
-- Checking a submitted code: exactly when it is accepted, and the limit on attempts.
use smart_access_gateway.Prelude.{
  ℕ, zero, suc, ◌+◌, ◌≤◌, ◌<◌, ◌≡◌, refl, ◌∙◌, ◌≢◌, ◌↔◌, some, arith, length,
}
use smart_access_gateway.Util.Bytes.{Text}
use smart_access_gateway.Util.Bytes.Compare.{timing_safe_equal_iff}
use smart_access_gateway.Oauth.Transaction.{OtpState, Tx, with_otp, with_otp_attempt}
use smart_access_gateway.Otp.{accepted, normalise_code, verify_code}

module _ (now max_attempts : ℕ) (digest : Text → Text) where
  -- A code is accepted exactly when one is outstanding with a digest, the digest of the folded code
  -- is that one, it has not expired and attempts are left.
  pub verify_code-eq-accepted_iff :
      (otp : OtpState) (submitted : Text)
      → (verify_code now max_attempts digest (some otp) submitted ≡ accepted) ↔ (
          (0 < length otp.digest)
          × (digest (normalise_code submitted) ≡ otp.digest)
          × (now ≤ otp.exp)
          × (otp.attempts < max_attempts))
  unfolding verify_code
  verify_code-eq-accepted_iff otp submitted =
      let same = timing_safe_equal_iff (digest (normalise_code submitted)) otp.digest in
      (
        λ h. (ground arith, same.0 (ground arith), ground arith, ground arith),
        λ h. ground (arith, same.1 h.1, h.0, h.2, h.3),
      )

module _ {C : Type 0} where
  -- The transaction after a number of failed submissions, each of which the endpoint records.
  unfoldable pub after_attempts : ℕ → Tx C → Tx C
  after_attempts zero tx = tx
  after_attempts (suc n) tx = after_attempts n (with_otp_attempt tx)

  attempts-after :
      (n : ℕ) (tx : Tx C) (o : OtpState)
      → tx.otp ≡ some o
      → (after_attempts n tx).otp ≡ some (record o { attempts = o.attempts + n })
  unfolding after_attempts
  attempts-after zero tx o h = h ∙ ground arith
  attempts-after (suc n) tx o h =
      attempts-after n (with_otp_attempt tx) (record o { attempts = o.attempts + 1 })
        (unfold with_otp_attempt in rw h)
      ∙ ground arith

  -- Once the maximum number of attempts has been recorded on an issued code, no submission is
  -- accepted, the right one included.
  pub attempts_exhausted :
      (now later max_attempts n expires_at resends : ℕ) (hash : Text → Text) (tx : Tx C)
      (digest submitted : Text)
      → max_attempts ≤ n
      → verify_code later max_attempts hash
          (after_attempts n (with_otp now tx digest expires_at resends)).otp
          submitted
        ≢ accepted
  attempts_exhausted now later max_attempts n expires_at resends hash tx digest submitted le h =
      let issued : OtpState = record {
        digest = digest;
        exp = expires_at;
        attempts = 0;
        resends = resends;
        iat = now;
      } in
      let state =
        attempts-after n (with_otp now tx digest expires_at resends) issued
          (unfold with_otp in refl) in
      let facts =
        (verify_code-eq-accepted_iff later max_attempts hash (record issued { attempts = 0 + n })
            submitted).0
          (rw state at h) in
      absurd (omega (arith, facts.3))
