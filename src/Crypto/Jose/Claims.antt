-- ===== src/Crypto/Jose/Claims.antt =====
-- What the checks of the claims guarantee.
use smart_access_gateway.Prelude.{
  ℕ, ◌+◌, ◌≤◌, ◌≡◌, refl, not, List, arith, Result, ok, err, ◌>>◌, throw_if, >>=-eq-ok, includes,
  nat_eq, string_eq,
}
use smart_access_gateway.Util.Bytes.{Text}
use smart_access_gateway.Util.Text.{text_Eq}
use smart_access_gateway.Crypto.Jose.{
  ClaimSet, ClaimOptions, TimeClaim, seconds, missing, not_finite, check_exp, validate_claims,
  verify_compact, Platform, Jwk, Jwt, decode_jwt, check_issuer, check_audience, or_throw,
  known_algs,
}

-- The steps of a sequence of checks have all passed.
pub >>-eq-ok :
    {A : Type 0} {E : Type 0} (m : Result E (Unit {0})) (k : Result E A) {a : A}
    → (m >> k) ≡ ok a
    → (m ≡ ok tt) × (k ≡ ok a)
>>-eq-ok (ok tt) k h = (refl, h)
>>-eq-ok (err e) k h = cc

check_exp-live :
    (now skew : ℕ) (e : TimeClaim)
    → check_exp now skew e ≡ ok tt
    → (exp : ℕ) × (e ≡ seconds exp) × (now ≤ exp + skew)
unfolding check_exp
check_exp-live now skew missing k = cc
check_exp-live now skew not_finite k = cc
check_exp-live now skew (seconds t) k = (t, refl, ground arith)

-- Claims that are accepted have an expiry that is at most the tolerated skew ago.
pub validate_claims-live :
    (now : ℕ) (options : ClaimOptions) (claims : ClaimSet)
    → validate_claims now options claims ≡ ok tt
    → (exp : ℕ) × (claims.exp ≡ seconds exp) × (now ≤ exp + options.clock_skew)
unfolding validate_claims
validate_claims-live now options claims h =
    let (issuer, h1) = >>-eq-ok (check_issuer options.issuer claims) _ h in
    let (audience, h2) = >>-eq-ok (check_audience options.audience claims) _ h1 in
    let (exp, h3) = >>-eq-ok (check_exp now options.clock_skew claims.exp) _ h2 in
    check_exp-live now options.clock_skew claims.exp exp

-- A verified token yields the payload that it decodes to.
pub verify_compact-decoded :
    (platform : Platform) (algs : List Text) (jwk : Jwk) (token : Text) (p : ClaimSet)
    → verify_compact platform algs jwk token ≡ ok p
    → (jwt : Jwt) × (decode_jwt platform token ≡ ok jwt) × (p ≡ jwt.payload)
unfolding verify_compact
verify_compact-decoded platform algs jwk token p h =
    let (jwt, decoded, h1) = >>=-eq-ok (decode_jwt platform token) _ h in
    let (known, h2) =
      >>-eq-ok (throw_if (not (includes jwt.header.alg known_algs)) "unsupported alg") _ h1 in
    let (allowed, h3) =
      >>-eq-ok (throw_if (not (includes jwt.header.alg algs)) "alg not permitted here") _ h2 in
    let (good, verified, h4) =
      >>=-eq-ok
        (or_throw "the key cannot be imported"
          (platform.verify jwt.header.alg jwk jwt.signature jwt.input))
        _ h3 in
    let (passed, h5) = >>-eq-ok (throw_if (not good) "signature verification failed") _ h4 in
    (jwt, decoded, cc)
