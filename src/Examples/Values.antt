-- ===== src/Examples/Values.antt =====
-- Addresses, codes and authentication contexts.
use smart_access_gateway.Prelude.{
  ℕ, ◌+◌, ◌/◌, ◌≤◌, ◌<◌, String, ◌≡◌, refl, ◌≢◌, true, false, not, none, some, List, [], ◌∷◌, arith,
  ok, length, all, includes, All, nat_eq, string_eq,
}
use smart_access_gateway.Util.Bytes.{Text, codes, timing_safe_equal, diff_from}
use smart_access_gateway.Util.Text.{text_eq, text_Eq, to_upper}
use smart_access_gateway.Identity.{SubjectClient, subject_type_of, scope_of}
use smart_access_gateway.Identity.Subjects.{BarFree, subject_parts, subject_input_inj}
use smart_access_gateway.Oauth.Transaction.{OtpState, with_otp}
use smart_access_gateway.Otp.{
  draw, verify_code, accepted, normalise_code, generate_code, numeric, format_code_for_display,
  is_code_char,
}
use smart_access_gateway.Otp.Codes.{kept_all, kept, generate_code_total, generate_code_sound}
use smart_access_gateway.Otp.Verify.{attempts_exhausted, after_attempts}
use smart_access_gateway.Acr.{
  otp_acr, local_mfa_acr, federated_acr, federated_mfa_acr, mfa_acr, satisfies, requires_federation,
}
use smart_access_gateway.Acr.Demands.{satisfies-otp, satisfies-separated}
use smart_access_gateway.Totp.{
  Attempt, verify_totp, try_steps, try_step, totp_for_step, decode_base32, decode_from,
  strip_equals, hash_name, truncated, padded, counter_bytes, presented_of,
}
use smart_access_gateway.Totp.Verify.{IsRight, verify_totp_sound}
use smart_access_gateway.Examples.Flow.{tx}

abbrev spa : SubjectClient
spa = record {
  client_id = codes "spa";
  sector_identifier = none;
  subject_type = none;
  sanitise_plus_emails = none;
}

abbrev ann : List Text
ann = codes "ann" ∷ []

bar_free : BarFree (subject_parts (codes "public") ann spa)
unfolding text_eq
bar_free = omega arith

subject_input_inj_example :
    (subject_type_of (codes "public") spa ≡ subject_type_of (codes "public") spa)
    × (scope_of (codes "public") spa ≡ scope_of (codes "public") spa)
    × (ann ≡ ann)
subject_input_inj_example =
    subject_input_inj (codes "public") spa spa ann ann bar_free bar_free refl

abbrev outstanding : OtpState
outstanding = record { digest = codes "d"; exp = 100; attempts = 1; resends = 0; iat = 0 }

abbrev fixed_digest : Text → Text
fixed_digest t = codes "d"

attempts_exhausted_example :
    verify_code 50 3 fixed_digest
      (after_attempts 3 (with_otp 10 tx (codes "d") 100 0)).otp
      (codes "123")
    ≢ accepted
attempts_exhausted_example =
    attempts_exhausted 10 50 3 3 100 0 fixed_digest tx (codes "d") (codes "123") (omega arith)

enough_bytes : 2 ≤ kept_all (length numeric) ((3 ∷ 255 ∷ []) ∷ (14 ∷ []) ∷ [])
unfolding kept_all kept numeric
enough_bytes = omega arith

generate_code_total_example :
    (code : Text) × (generate_code 2 numeric ((3 ∷ 255 ∷ []) ∷ (14 ∷ []) ∷ []) [] ≡ some code)
generate_code_total_example =
    generate_code_total 2 numeric ((3 ∷ 255 ∷ []) ∷ (14 ∷ []) ∷ []) enough_bytes

generated : generate_code 2 numeric ((3 ∷ 255 ∷ []) ∷ (14 ∷ []) ∷ []) [] ≡ some (codes "34")
unfolding generate_code draw numeric
generated = refl

digits_shape : all is_code_char numeric ≡ true
unfolding numeric
digits_shape = refl

digits_given : 0 < length numeric
unfolding numeric
digits_given = omega arith

generate_code_sound_example :
    (length (codes "34") ≡ 2)
    × All (λ c. includes c numeric ≡ true) (codes "34")
    × (normalise_code (format_code_for_display (codes "34")) ≡ codes "34")
generate_code_sound_example =
    generate_code_sound 2 numeric ((3 ∷ 255 ∷ []) ∷ (14 ∷ []) ∷ []) (codes "34") digits_shape
      digits_given generated

satisfies-otp_example :
    satisfies otp_acr (mfa_acr ∷ otp_acr ∷ []) ≡ not (requires_federation (mfa_acr ∷ otp_acr ∷ []))
satisfies-otp_example = satisfies-otp (mfa_acr ∷ otp_acr ∷ [])

federated_asked : federated_acr ∷ federated_mfa_acr ∷ [] ≢ []
federated_asked e = cc

satisfies-separated_example :
    satisfies local_mfa_acr (federated_acr ∷ federated_mfa_acr ∷ []) ≡ false
satisfies-separated_example =
    satisfies-separated local_mfa_acr (federated_acr ∷ federated_mfa_acr ∷ []) refl federated_asked
      refl

abbrev no_mac : String → List ℕ → List ℕ → List ℕ
no_mac name key message = []

abbrev six_zeros : Attempt
six_zeros = record {
  secret = codes "AAAAAAAAAAAAAAAA";
  code = codes "000 000";
  now = 90000;
  algorithm = codes "SHA1";
  digits = 6;
  period = 30;
  skew = 1;
  last_used_step = some 2;
}

verified : verify_totp no_mac six_zeros ≡ ok (some 4)
unfolding verify_totp try_steps try_step totp_for_step decode_base32 decode_from strip_equals
    hash_name truncated padded counter_bytes timing_safe_equal diff_from text_eq to_upper
verified = refl

verify_totp_sound_example :
    IsRight no_mac six_zeros (presented_of six_zeros.code) 4
    × (4 ≤ six_zeros.now / 1000 / six_zeros.period + six_zeros.skew)
    × (six_zeros.now / 1000 / six_zeros.period ≤ 4 + six_zeros.skew)
verify_totp_sound_example = verify_totp_sound no_mac six_zeros 4 verified
