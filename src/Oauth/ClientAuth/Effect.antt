-- ===== src/Oauth/ClientAuth/Effect.antt =====
-- What an authentication does to the state store.
use smart_access_gateway.Prelude.{
  ℕ, ◌+◌, ◌-◌, ◌≤◌, ◌≡◌, refl, inl, inr, ◌||◌, some, [], ◌∷◌, Result, ok, err, ◌==◌, nat_eq,
  string_eq, Bool-cases, or_default,
}
use smart_access_gateway.Errors.{Failure}
use smart_access_gateway.Store.{StateStore}
use smart_access_gateway.Store.Calls.{claim_call, run, Follows}
use smart_access_gateway.Crypto.Jose.{ClaimSet}
use smart_access_gateway.Oauth.ClientAuth.{Services, Client, Credentials}
use smart_access_gateway.Oauth.ClientAuth.Verify.{
  assertion_key, seconds_of, if_unused, Issuer, check_assertion, by_assertion, use_assertion,
  then_use, verify_private_key_jwt, authenticate_client,
}

by_assertion-state :
    {S : Type 0} (r : Result Failure ClaimSet) (s : S) → (by_assertion (r, s)).1 ≡ s
by_assertion-state (ok p) s = refl
by_assertion-state (err e) s = refl

module _ {S : Type 0} (services : Services) (config : Issuer) (now : ℕ) (client : Client)
    (store : StateStore S) where
  then_use-Follows :
      (t : ℕ) (r : Result Failure ClaimSet) (s : S)
      → now ≤ t
      → Follows store t s (by_assertion (then_use services config now client (some store) r s)).1
  unfolding then_use use_assertion run
  then_use-Follows t (err e) s le = record { calls = []; times = tt; reached = refl }
  then_use-Follows t (ok p) s le = record {
    calls =
        claim_call now (assertion_key services client.client_id p.jti)
          (seconds_of p.exp + config.clock_skew_seconds - now)
        ∷ [];
    times = (le, tt);
    reached = by_assertion-state (if_unused p _) _;
  }

  -- Authentication makes at most one call of the store, at its own time.
  pub authenticate_client-Follows :
      (t : ℕ) (credentials : Credentials) (s : S)
      → now ≤ t
      → Follows store t s
          (authenticate_client services config now client credentials (some store) s).1
  unfolding authenticate_client verify_private_key_jwt run
  authenticate_client-Follows t credentials s le =
      let same : Follows store t s s = record { calls = []; times = tt; reached = refl } in
      let asserted =
        then_use-Follows t
          (check_assertion services config now client (or_default credentials.assertion [])) s le in
      let registered = client.token_endpoint_auth_method in
      elim (Bool-cases (registered == "none")) [
        | inl e ↦ rw e same
        | inr e ↦
            elim (Bool-cases
              (registered == "client_secret_basic" || registered == "client_secret_post")) [
                | inl f ↦ rw (e, f) same
                | inr f ↦ elim (Bool-cases (registered == "private_key_jwt")) [
                  | inl g ↦ elim (Bool-cases (credentials.method == "private_key_jwt")) [
                    | inl h ↦ rw (e, f, g, h) asserted
                    | inr h ↦ rw (e, f, g, h) same
                  ]
                  | inr g ↦ rw (e, f, g) same
                ]
              ]
      ]
