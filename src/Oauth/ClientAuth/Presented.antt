-- ===== src/Oauth/ClientAuth/Presented.antt =====
-- A request presents at most one credential.
use smart_access_gateway.Prelude.{
  ℕ, ◌+◌, ◌≤◌, ◌<◌, ◌≡◌, refl, sym, ap, ◌⊎◌, inl, inr, true, false, Option, none, some, arith,
  Result, ok, throw_if, >>=-eq-ok, ltb, Bool-cases,
}
use smart_access_gateway.Util.Bytes.{Text}
use smart_access_gateway.Util.Http.{Params, single}
use smart_access_gateway.Errors.{Failure}
use smart_access_gateway.Crypto.Jose.Claims.{>>-eq-ok}
use smart_access_gateway.Oauth.ClientAuth.{
  Services, Credentials, is_basic, read_header, decode_basic, is_other, with_secret, with_assertion,
  read_credentials,
}

-- Where the credential of a request stands: nowhere, in the header, or in one field of the body.
pub data Presents (authorization : Option Text) (params : Params) : Credentials → Type 0 where
  nothing :
      (out : Credentials)
      → is_basic authorization ≡ false
      → single params "client_secret" ≡ ok none
      → single params "client_assertion" ≡ ok none
      → out.method ≡ "none"
      → Presents authorization params out
  in_header :
      (out : Credentials)
      → is_basic authorization ≡ true
      → single params "client_secret" ≡ ok none
      → single params "client_assertion" ≡ ok none
      → out.method ≡ "client_secret_basic"
      → Presents authorization params out
  in_body :
      (out : Credentials) (secret : Text)
      → is_basic authorization ≡ false
      → single params "client_secret" ≡ ok (some secret)
      → single params "client_assertion" ≡ ok none
      → out.method ≡ "client_secret_post"
      → out.secret ≡ some secret
      → Presents authorization params out
  as_assertion :
      (out : Credentials) (assertion : Text)
      → is_basic authorization ≡ false
      → single params "client_secret" ≡ ok none
      → single params "client_assertion" ≡ ok (some assertion)
      → out.method ≡ "private_key_jwt"
      → out.assertion ≡ some assertion
      → Presents authorization params out

ok_inj : {A : Type 0} (a b : A) → ◌≡◌ {A = Result Failure A} (ok a) (ok b) → a ≡ b
ok_inj a b h = cc

-- The header adds one credential exactly if it is HTTP Basic.
read_header-counted :
    (services : Services) (authorization client_id : Option Text) (out : Credentials × ℕ)
    → read_header services authorization client_id ≡ ok out
    → ((is_basic authorization ≡ false) × (out.1 ≡ 0) × (out.0.method ≡ "none"))
      ⊎ ((is_basic authorization ≡ true) × (out.1 ≡ 1) × (out.0.method ≡ "client_secret_basic"))
unfolding read_header is_basic
read_header-counted services none client_id out h =
    inl (refl, ground arith, rw (← ok_inj _ _ h) refl)
read_header-counted services (some header) client_id out h =
    elim (Bool-cases (is_basic (some header))) [
      | inl e ↦
          let (halves, decoded, h1) = >>=-eq-ok (decode_basic services header) _ (rw e at h) in
          let (same, h2) = >>-eq-ok (throw_if (is_other halves.0 client_id) _) _ h1 in
          inr (e, rw (← ok_inj _ _ h2) refl, rw (← ok_inj _ _ h2) refl)
      | inr e ↦ let k = rw e at h in inl (e, rw (← ok_inj _ _ k) refl, rw (← ok_inj _ _ k) refl)
    ]

with_assertion-counted :
    (params : Params) (assertion : Text) (start posted : Credentials × ℕ)
    → with_assertion params (some assertion) start ≡ ok posted
    → (posted.1 ≡ start.1 + 1)
      × (posted.0.method ≡ "private_key_jwt")
      × (posted.0.assertion ≡ some assertion)
unfolding with_assertion
with_assertion-counted params assertion (start, n) posted h =
    let (type, given, h1) = >>=-eq-ok (single params "client_assertion_type") _ h in
    let (known, h2) = >>-eq-ok (throw_if _ _) _ h1 in
    let e : (record start { assertion = some assertion; method = "private_key_jwt" }, n + 1)
        ≡ posted =
      ok_inj _ _ h2 in
    (rw (← e) refl, rw (← e) refl, rw (← e) refl)

without_assertion :
    (params : Params) (start posted : Credentials × ℕ)
    → with_assertion params none start ≡ ok posted
    → start ≡ posted
unfolding with_assertion
without_assertion params start posted h = ok_inj _ _ h

-- Two credentials are more than one.
two : (k n : ℕ) → 0 < k → k + 1 ≡ n → n ≤ 1 → ⊥
two k n pos e le = omega arith

-- A request that is read without an error presents at most one credential, and the method says
-- where it stands.
pub read_credentials_one :
    (services : Services) (authorization : Option Text) (params : Params) (out : Credentials)
    → read_credentials services authorization params ≡ ok out
    → Presents authorization params out
unfolding read_credentials
read_credentials_one services authorization params out h =
    let (client_id, named, h1) = >>=-eq-ok (single params "client_id") _ h in
    let (basic, read, h2) = >>=-eq-ok (read_header services authorization client_id) _ h1 in
    let (body, secret, h3) = >>=-eq-ok (single params "client_secret") _ h2 in
    let (field, assertion, h4) = >>=-eq-ok (single params "client_assertion") _ h3 in
    let (posted, whole, h5) =
      >>=-eq-ok (with_assertion params field (with_secret body basic)) _ h4 in
    let (few, h6) = >>-eq-ok (throw_if (ltb 1 posted.1) _) _ h5 in
    rw (← ok_inj _ _ h6) (
      placed body field basic posted secret assertion
        (read_header-counted services authorization client_id basic read) whole (ground arith))
  where
    placed :
        (body field : Option Text) (basic posted : Credentials × ℕ)
        → single params "client_secret" ≡ ok body
        → single params "client_assertion" ≡ ok field
        → ((is_basic authorization ≡ false) × (basic.1 ≡ 0) × (basic.0.method ≡ "none"))
          ⊎ ((is_basic authorization ≡ true)
              × (basic.1 ≡ 1)
              × (basic.0.method ≡ "client_secret_basic"))
        → with_assertion params field (with_secret body basic) ≡ ok posted
        → posted.1 ≤ 1
        → Presents authorization params posted.0
    placed none none basic posted s a (inl (b, n, m)) w few =
        let e = without_assertion params basic posted w in nothing posted.0 b s a (rw (← e) m)
    placed none none basic posted s a (inr (b, n, m)) w few =
        let e = without_assertion params basic posted w in in_header posted.0 b s a (rw (← e) m)
    placed (some x) none (start, k) posted s a (inl (b, n, m)) w few =
        let e = without_assertion params (with_secret (some x) (start, k)) posted w in
        in_body posted.0 x b s a (rw (← e) refl) (rw (← e) refl)
    placed (some x) none (start, k) posted s a (inr (b, n, m)) w few =
        let e = without_assertion params (with_secret (some x) (start, k)) posted w in
        absurd (two k posted.1 (omega arith) (ap (λ z. z.1) e) few)
    placed none (some y) basic posted s a (inl (b, n, m)) w few =
        let (count, method, held) = with_assertion-counted params y basic posted w in
        as_assertion posted.0 y b s a method held
    placed none (some y) basic posted s a (inr (b, n, m)) w few =
        let (count, method, held) = with_assertion-counted params y basic posted w in
        absurd (two basic.1 posted.1 (omega arith) (sym count) few)
    placed (some x) (some y) (start, k) posted s a b w few =
        let (count, method, held) =
          with_assertion-counted params y (with_secret (some x) (start, k)) posted w in
        absurd (two (k + 1) posted.1 (omega arith) (sym count) few)
