-- ===== src/Oauth/ClientAuth/Proof.antt =====
-- What a client has proved once it is authenticated.
use smart_access_gateway.Prelude.{
  ℕ, String, ◌≡◌, refl, sym, ◌≢◌, ◌⊎◌, inl, inr, Bool, true, false, not, ◌&&◌, ◌||◌, Option, none,
  some, [], arith, Result, ok, err, ◌>>◌, throw_if, >>=-eq-ok, ◌==◌, ==_iff, nat_eq, string_eq,
  Bool-cases, or_default,
}
use smart_access_gateway.Util.Bytes.{Text, codes, timing_safe_equal}
use smart_access_gateway.Util.Bytes.Compare.{timing_safe_equal_iff}
use smart_access_gateway.Util.Text.{text_Eq, text_eq, text_eq_iff, to_lower}
use smart_access_gateway.Errors.{Failure}
use smart_access_gateway.Store.{StateStore, StoreError}
use smart_access_gateway.Crypto.Jose.{ClaimSet}
use smart_access_gateway.Oauth.ClientAuth.{ClaimSet, Services, Client, Credentials}
use smart_access_gateway.Errors.{or_fail}
use smart_access_gateway.Oauth.ClientAuth.Verify.{
  if_unused, use_assertion, then_use, Issuer, check_assertion, check_digest, verify_digest,
  digest_parts, stored_secret, check_secret, authenticate_client, verify_private_key_jwt,
  by_assertion,
}

-- A presented secret that matches a stored one: the text itself, or its digest in either case.
pub data Matches (sha256_hex : Text → Text) (presented : Text) : Text × Text → Type 0 where
  plain :
      (expected : Text)
      → presented ≡ expected
      → expected ≢ []
      → Matches sha256_hex presented (codes "plain", expected)
  hashed :
      (expected : Text)
      → to_lower (sha256_hex presented) ≡ to_lower expected
      → expected ≢ []
      → Matches sha256_hex presented (codes "sha256", expected)

check_digest_sound :
    (sha256_hex : Text → Text) (scheme expected presented : Text)
    → check_digest sha256_hex scheme expected presented ≡ some true
    → Matches sha256_hex presented (scheme, expected)
unfolding check_digest
check_digest_sound sha256_hex scheme expected presented h =
    elim (Bool-cases (text_eq scheme (codes "sha256"))) [
      | inl e ↦
          let k : some (
                not (text_eq expected [])
                && timing_safe_equal (to_lower (sha256_hex presented)) (to_lower expected))
              ≡ some true =
            rw e at h in
          rw ((text_eq_iff scheme (codes "sha256")).0 e) (
            hashed expected ((timing_safe_equal_iff _ _).0 (both _ _ k).1)
              (filled expected (both _ _ k).0))
      | inr e ↦ elim (Bool-cases (text_eq scheme (codes "plain"))) [
        | inl d ↦
            let k : some (not (text_eq expected []) && timing_safe_equal presented expected)
                ≡ some true =
              rw (e, d) at h in
            rw ((text_eq_iff scheme (codes "plain")).0 d) (
              plain expected ((timing_safe_equal_iff _ _).0 (both _ _ k).1)
                (filled expected (both _ _ k).0))
        | inr d ↦ absurd (unknown (rw (e, d) at h))
      ]
    ]
  where
    both : (a b : Bool) → some (a && b) ≡ some true → (a ≡ true) × (b ≡ true)
    both a b k = (ground arith, ground arith)

    filled : (t : Text) → not (text_eq t []) ≡ true → t ≢ []
    filled t k e = ground (arith, (text_eq_iff t []).1 e)

    unknown : ◌≡◌ {A = Option Bool} none (some true) → ⊥
    unknown k = cc

check_secret_sound :
    (services : Services) (client : Client) (credentials : Credentials)
    → check_secret services client credentials ≡ ok tt
    → (stored : Text) × (stored_secret client.client_secret_digest client.client_secret
        ≡ some stored)
      × Matches services.sha256_hex (or_default credentials.secret []) (digest_parts stored)
unfolding check_secret verify_digest
check_secret_sound services client credentials h =
    let (stored, held, h1) =
      >>=-eq-ok (or_fail _ (stored_secret client.client_secret_digest client.client_secret)) _ h in
    let (good, checked, h2) =
      >>=-eq-ok
        (or_fail _ (verify_digest services.sha256_hex stored (or_default credentials.secret []))) _
        h1 in
    (
      stored,
      or_fail-ok _ _ stored held,
      check_digest_sound services.sha256_hex _ _ _
          (or_fail-ok _ _ true (good_true _ _ good checked h2)),
    )
  where
    or_fail-ok : {A : Type 0} (e : Failure) (o : Option A) (a : A) → or_fail e o ≡ ok a → o ≡ some a
    or_fail-ok e none a k = cc
    or_fail-ok e (some b) a k = cc

    good_true :
        (r : Result Failure Bool) (f : Failure) (good : Bool)
        → r ≡ ok good
        → throw_if (not good) f ≡ ok tt
        → r ≡ ok true
    good_true r f true k l = k
    good_true r f false k l = cc

ok_inj : {a c : String} → ◌≡◌ {A = Result Failure String} (ok a) (ok c) → a ≡ c
ok_inj k = cc

none-then :
    (b : Bool) (m : String) (f : Failure)
    → (throw_if (not b) f >> ok "none") ≡ ok m
    → (b ≡ true) × ("none" ≡ m)
none-then true m f h = (refl, ok_inj h)
none-then false m f h = cc

secret-then :
    (reg : String) (b : Bool) (r : Result Failure (Unit {0})) (n m : String) (f : Failure)
    → (throw_if (not b) f >> (r >> ok n)) ≡ ok m
    → (b ≡ true) × (r ≡ ok tt) × (n ≡ m)
secret-then reg true (ok u) n m f h = (refl, refl, ok_inj h)
secret-then reg true (err e) n m f h = cc
secret-then reg false r n m f h = cc

by_assertion-ok :
    {S : Type 0} (out : Result Failure ClaimSet × S) (m : String)
    → (by_assertion out).0 ≡ ok m
    → (p : ClaimSet) × (out.0 ≡ ok p) × ("private_key_jwt" ≡ m)
by_assertion-ok (ok p, s) m h = (p, refl, ok_inj h)
by_assertion-ok (err e, s) m h = cc

secret_method :
    (m : String)
    → (m == "client_secret_basic" || m == "client_secret_post") ≡ true
    → (m ≡ "client_secret_basic") ⊎ (m ≡ "client_secret_post")
secret_method m h = elim (Bool-cases (m == "client_secret_basic")) [
  | inl e ↦ inl ((==_iff m "client_secret_basic").0 e)
  | inr e ↦ inr ((==_iff m "client_secret_post").0 (ground (arith, rw e at h)))
]

not_ok : (f : Failure) (m : String) → ◌≡◌ {A = Result Failure String} (err f) (ok m) → ⊥
not_ok f m h = cc

verified-checked :
    {S : Type 0} (services : Services) (config : Issuer) (now : ℕ) (client : Client)
    (store : Option (StateStore S)) (assertion : Text) (s : S) (p : ClaimSet)
    → (verify_private_key_jwt services config now client store assertion s).0 ≡ ok p
    → check_assertion services config now client assertion ≡ ok p
unfolding verify_private_key_jwt then_use use_assertion
verified-checked {S = S} services config now client store assertion s p h =
    go store (check_assertion services config now client assertion) h
  where
    unused :
        (q : ClaimSet) (r : Result StoreError Bool)
        → if_unused q r ≡ ok p
        → ◌≡◌ {A = Result Failure ClaimSet} (ok q) (ok p)
    unused q (ok true) k = k
    unused q (ok false) k = cc
    unused q (err e) k = cc

    go :
        (o : Option (StateStore S)) (r : Result Failure ClaimSet)
        → (then_use services config now client o r s).0 ≡ ok p
        → r ≡ ok p
    go o (err e) k = cc
    go none (ok q) k = k
    go (some st) (ok q) k = unused q _ k

-- What each registered method demands of the credential.
pub data IsAuthenticated (services : Services) (config : Issuer) (now : ℕ) (client : Client)
    (credentials : Credentials) : String → Type 0 where
  public_client :
      credentials.method ≡ "none" → IsAuthenticated services config now client credentials "none"
  by_secret :
      (m : String) (stored : Text)
      → (m ≡ "client_secret_basic") ⊎ (m ≡ "client_secret_post")
      → credentials.method ≡ m
      → stored_secret client.client_secret_digest client.client_secret ≡ some stored
      → Matches services.sha256_hex (or_default credentials.secret []) (digest_parts stored)
      → IsAuthenticated services config now client credentials m
  by_key :
      (p : ClaimSet)
      → credentials.method ≡ "private_key_jwt"
      → check_assertion services config now client (or_default credentials.assertion []) ≡ ok p
      → IsAuthenticated services config now client credentials "private_key_jwt"

-- A client that is authenticated has presented the credential of exactly its registered method:
-- none where that is `none`, the secret that is stored where it is one of the two secret methods, and
-- an assertion that passes every check where it is `private_key_jwt`.
pub authenticate_client_sound :
    {S : Type 0} (services : Services) (config : Issuer) (now : ℕ) (client : Client)
    (credentials : Credentials) (store : Option (StateStore S)) (s : S) (m : String)
    → (authenticate_client services config now client credentials store s).0 ≡ ok m
    → (m ≡ client.token_endpoint_auth_method)
      × IsAuthenticated services config now client credentials m
unfolding authenticate_client
authenticate_client_sound services config now client credentials store s m h =
    let reg = client.token_endpoint_auth_method in
    elim (Bool-cases (reg == "none")) [
      | inl e ↦
          let (method, same) = none-then (credentials.method == "none") m _ (rw e at h) in
          rw (← same) (sym ((==_iff reg "none").0 e), public_client ((==_iff _ _).0 method))
      | inr e ↦ elim (Bool-cases (reg == "client_secret_basic" || reg == "client_secret_post")) [
        | inl d ↦
            let (method, checked, same) =
              secret-then reg (credentials.method == reg) _ credentials.method m _
                (rw (e, d) at h) in
            let at_reg = (==_iff _ _).0 method in
            let (stored, held, matches) = check_secret_sound services client credentials checked in
            rw (← same) (
              at_reg,
              by_secret _ stored (rw (← at_reg) at (secret_method reg d)) refl held matches,
            )
        | inr d ↦ elim (Bool-cases (reg == "private_key_jwt")) [
          | inl f ↦ elim (Bool-cases (credentials.method == "private_key_jwt")) [
            | inl g ↦
                let (p, verified, same) = by_assertion-ok _ m (rw (e, d, f, g) at h) in
                rw (← same) (
                  sym ((==_iff reg "private_key_jwt").0 f),
                  by_key p ((==_iff _ _).0 g)
                      (verified-checked services config now client store _ s p verified),
                )
            | inr g ↦ absurd (not_ok _ m (rw (e, d, f, g) at h))
          ]
          | inr f ↦ absurd (not_ok _ m (rw (e, d, f) at h))
        ]
      ]
    ]
