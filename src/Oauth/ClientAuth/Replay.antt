-- ===== src/Oauth/ClientAuth/Replay.antt =====
-- A client assertion authenticates once.
use smart_access_gateway.Prelude.{
  ℕ, ◌+◌, ◌-◌, ◌≤◌, String, ◌≡◌, refl, ◌≢◌, Bool, true, false, not, none, some, List, arith, Result,
  ok, err, ◌>>◌, throw_if, >>=-eq-ok, includes, All, nat_eq, string_eq,
}
use smart_access_gateway.Util.Bytes.{Text}
use smart_access_gateway.Util.Text.{text_Eq}
use smart_access_gateway.Errors.{Failure}
use smart_access_gateway.Store.{StateStore, StoreError}
use smart_access_gateway.Store.Calls.{Call, time, run, run_keeps}
use smart_access_gateway.Crypto.Jose.{
  ClaimSet, ClaimOptions, validate_claims, verify_compact, Jwt, decode_jwt, select_jwk,
}
use smart_access_gateway.Crypto.Jose.Claims.{>>-eq-ok, validate_claims-live, verify_compact-decoded}
use smart_access_gateway.Oauth.ClientAuth.{Services, Client, private_key_jwt_algs}
use smart_access_gateway.Oauth.ClientAuth.Verify.{
  client_jwks, Issuer, or_client_error, check_assertion, seconds_of, if_unused, assertion_key,
  use_assertion, then_use, verify_private_key_jwt,
}

or_client_error-ok :
    {A : Type 0} (m : String) (r : Result String A) (a : A) → or_client_error m r ≡ ok a → r ≡ ok a
or_client_error-ok m (ok b) a h = cc
or_client_error-ok m (err e) a h = cc

last-same :
    (m : Result Failure (Unit {0})) (n : Result Failure Text) (k : Result Failure (Unit {0}))
    (a b : ClaimSet)
    → (m >> (n >> (k >> ok a))) ≡ ok b
    → a ≡ b
last-same (ok u) (ok t) (ok v) a b h = cc
last-same (ok u) (ok t) (err e) a b h = cc
last-same (ok u) (err e) k a b h = cc
last-same (err e) n k a b h = cc

-- The payload of an accepted assertion is the one that the assertion decodes to, and it is live.
check_assertion-live :
    (services : Services) (config : Issuer) (now : ℕ) (client : Client) (assertion : Text)
    (p : ClaimSet)
    → check_assertion services config now client assertion ≡ ok p
    → ((jwt : Jwt) × (decode_jwt services.platform assertion ≡ ok jwt) × (p ≡ jwt.payload))
      × (now ≤ seconds_of p.exp + config.clock_skew_seconds)
unfolding check_assertion
check_assertion-live services config now client assertion p h =
    let (jwt, decoded, h1) =
      >>=-eq-ok
        (or_client_error "The client assertion is not a valid JWT."
          (decode_jwt services.platform assertion))
        _ h in
    let (alg, h2) =
      >>-eq-ok (throw_if (not (includes jwt.header.alg private_key_jwt_algs)) _) _ h1 in
    let (jwks, keys, h3) = >>=-eq-ok (client_jwks services client) _ h2 in
    let (jwk, selected, h4) =
      >>=-eq-ok
        (or_client_error "No registered key matches the client assertion."
          (select_jwk jwks jwt.header))
        _ h3 in
    let (payload, verified, h5) =
      >>=-eq-ok
        (or_client_error "The client assertion signature could not be verified."
          (verify_compact services.platform private_key_jwt_algs jwk assertion))
        _ h4 in
    let options : ClaimOptions = record {
      issuer = some client.client_id;
      audience = some config.issuer;
      nonce = none;
      clock_skew = config.clock_skew_seconds;
      max_age = none;
    } in
    let (valid, h6) =
      >>-eq-ok
        (or_client_error "The client assertion is not acceptable."
          (validate_claims now options payload))
        _ h5 in
    let (exp, finite, live) =
      validate_claims-live now options payload (or_client_error-ok _ _ tt valid) in
    let same : payload ≡ p = last-same _ _ _ payload p h6 in
    let (jwt', decoded', from_jwt) =
      verify_compact-decoded services.platform private_key_jwt_algs jwk assertion payload
        (or_client_error-ok _ _ payload verified) in
    ((jwt', decoded', cc), rw (← same, finite) live)

module _ {S : Type 0} (store : StateStore S) (services : Services) (config : Issuer)
    (client : Client) where
  if_unused-ok :
      (p q : ClaimSet) (r : Result StoreError Bool) → if_unused p r ≡ ok q → (r ≡ ok true) × (p ≡ q)
  if_unused-ok p q (ok true) h = (refl, ground arith)
  if_unused-ok p q (ok false) h = cc
  if_unused-ok p q (err e) h = cc

  verified-then :
      (now : ℕ) (assertion : Text) (s : S) (p : ClaimSet)
      → (verify_private_key_jwt services config now client (some store) assertion s).0 ≡ ok p
      → (check_assertion services config now client assertion ≡ ok p)
        × ((store.claim now
              (assertion_key services client.client_id p.jti)
              (seconds_of p.exp + config.clock_skew_seconds - now)
              s).0
            ≡ ok true)
        × ((verify_private_key_jwt services config now client (some store) assertion s).1
            ≡ (store.claim now
                (assertion_key services client.client_id p.jti)
                (seconds_of p.exp + config.clock_skew_seconds - now)
                s).1)
  unfolding verify_private_key_jwt then_use use_assertion
  verified-then now assertion s p h =
      go (check_assertion services config now client assertion) refl h
    where
      go :
          (r : Result Failure ClaimSet)
          → check_assertion services config now client assertion ≡ r
          → (then_use services config now client (some store) r s).0 ≡ ok p
          → (check_assertion services config now client assertion ≡ ok p)
            × ((store.claim now
                  (assertion_key services client.client_id p.jti)
                  (seconds_of p.exp + config.clock_skew_seconds - now)
                  s).0
                ≡ ok true)
            × ((then_use services config now client
                  (some store)
                  (check_assertion services config now client assertion)
                  s).1
                ≡ (store.claim now
                    (assertion_key services client.client_id p.jti)
                    (seconds_of p.exp + config.clock_skew_seconds - now)
                    s).1)
      go (err e) eq k = cc
      go (ok q) eq k = let (won, same) = if_unused-ok q p _ k in rw (← same) (eq, won, rw eq refl)

  -- With a state store a client assertion authenticates at most once. After a first success, and
  -- after calls of the store no later than the second request, the same assertion of the same
  -- client is refused at any later time.
  pub verify_private_key_jwt_once :
      (now t : ℕ) (assertion : Text) (calls : List Call) (s : S) (p q : ClaimSet)
      → All (λ c. time c ≤ t) calls
      → now ≤ t
      → (verify_private_key_jwt services config now client (some store) assertion s).0 ≡ ok p
      → (verify_private_key_jwt services config t client (some store) assertion (
          run store calls
            (verify_private_key_jwt services config now client (some store) assertion s).1)).0
        ≢ ok q
  verify_private_key_jwt_once now t assertion calls s p q times le won again =
      let (first, claimed, after) = verified-then now assertion s p won in
      let (second, reclaimed, reafter) = verified-then t assertion _ q again in
      let ((jwt, decoded, from_jwt), live) =
        check_assertion-live services config now client assertion p first in
      let ((jwt', decoded', from_jwt'), live') =
        check_assertion-live services config t client assertion q second in
      let same : p ≡ q = cc in
      let id = assertion_key services client.client_id p.jti in
      let live_p : t ≤ seconds_of p.exp + config.clock_skew_seconds = rw same live' in
      let ttl = seconds_of p.exp + config.clock_skew_seconds - now in
      let held : store.claimed t (store.claim now id ttl s).1 id ≡ true =
        store.claim_new now t id ttl s claimed (omega arith) in
      let refused =
        store.claim_old t id (seconds_of q.exp + config.clock_skew_seconds - t) _
          (run_keeps store calls t id _ times held) in
      both _ (rw (after, ← same) at reclaimed) (rw (← same) at refused)
    where
      both : (r : Result StoreError Bool) → r ≡ ok true → r ≡ ok false → ⊥
      both r h k = cc
