-- ===== src/Endpoints/Token/Entitled.antt =====
-- What each step of the token endpoint makes sure of.
use mathlib.Core.Path.{subst}
use smart_access_gateway.Prelude.{
  ok_injective, String, ◌≡◌, sym, ap, ◌∙◌, ◌≢◌, true, false, Option, none, some, [], arith, Result,
  ok, err, >>=-eq-ok, ==_iff, nat_eq, string_eq,
}
use smart_access_gateway.Util.Bytes.{Text}
use smart_access_gateway.Util.Text.{text_Eq, text_eq_iff}
use smart_access_gateway.Util.Http.{Params, single}
use smart_access_gateway.Errors.{Failure, Thrown, known, unknown, or_fail}
use smart_access_gateway.Crypto.Jose.Claims.{>>-eq-ok}
use smart_access_gateway.Profile.{Held}
use smart_access_gateway.Clients.{Client, credential_part}
use smart_access_gateway.Oauth.ClientAuth.{read_credentials, require_client_id}
use smart_access_gateway.Oauth.ClientAuth.Proof.{IsAuthenticated}
use smart_access_gateway.Oauth.Code.{Payload, Redemption, code_purpose, migrated}
use smart_access_gateway.Oauth.Code.Redeem.{IsGranted}
use smart_access_gateway.Crypto.Seal.{unseal, is_past}
use smart_access_gateway.Errors.{invalid_client}
use smart_access_gateway.Oauth.Tokens.{TokenResponse}
use smart_access_gateway.Endpoints.Token.{
  TokenContext, Fresh, Caller, grant_code, from_thrown, check_grant_type, read_caller,
  read_redemption, check_local, still_valid, answer,
}

found-client :
    (r : Result Thrown (Option Client)) (o : Option Client) (e : Failure) (client : Client)
    → from_thrown r ≡ ok o
    → or_fail e o ≡ ok client
    → r ≡ ok (some client)
found-client (ok (some c)) (some d) e client h k = cc
found-client (ok none) (some d) e client h k = cc
found-client (err (known f)) (some d) e client h k = cc
found-client (err (unknown m)) (some d) e client h k = cc
found-client r none e client h k = cc

grant_type-given : (given : Option Text) → check_grant_type given ≡ ok tt → given ≡ some grant_code
unfolding check_grant_type
grant_type-given none h = ground (arith, text_eq_iff [] grant_code)
grant_type-given (some g) h = ground (arith, text_eq_iff g grant_code)

pub read_redemption-client :
    (params : Params) (client_id : Text) (args : Redemption)
    → read_redemption params client_id ≡ ok args
    → args.client_id ≡ client_id
unfolding read_redemption
read_redemption-client params client_id args h =
    let (given, r1, h1) = >>=-eq-ok (single params "code") _ h in
    let (code, r2, h2) = >>=-eq-ok (or_fail _ given) _ h1 in
    let (uri, r3, h3) = >>=-eq-ok (single params "redirect_uri") _ h2 in
    let (verifier, r4, h4) = >>=-eq-ok (single params "code_verifier") _ h3 in
    ap (λ (r : Redemption). r.client_id) (sym (ok_injective h4))

pub read_redemption-code :
    (params : Params) (client_id : Text) (args : Redemption)
    → read_redemption params client_id ≡ ok args
    → single params "code" ≡ ok (some args.code)
unfolding read_redemption
read_redemption-code params client_id args h =
    let (given, r1, h1) = >>=-eq-ok (single params "code") _ h in
    let (code, r2, h2) = >>=-eq-ok (or_fail _ given) _ h1 in
    let (uri, r3, h3) = >>=-eq-ok (single params "redirect_uri") _ h2 in
    let (verifier, r4, h4) = >>=-eq-ok (single params "code_verifier") _ h3 in
    let same : code ≡ args.code = ap (λ (r : Redemption). r.code) (ok_injective h4) in
    r1 ∙ ap ok (present _ given code r2 ∙ ap some same)
  where
    present : (e : Failure) (o : Option Text) (c : Text) → or_fail e o ≡ ok c → o ≡ some c
    present e none c k = cc
    present e (some d) c k = cc

module _ (ctx : TokenContext) where
  -- What the endpoint has made sure of when it answers with tokens.
  pub record IsEntitled (fresh : Fresh) (authorization : Option Text) (params : Params)
      (caller : Caller) (grant : Payload Held) : Type 0 where
    pub presented : read_credentials ctx.services authorization params ≡ ok caller.credentials
    pub identified : caller.credentials.client_id ≡ some caller.client_id
    pub known_client : ctx.resolve caller.client_id ≡ ok (some caller.client)
    pub code_flow : single params "grant_type" ≡ ok (some grant_code)
    pub credential :
        IsAuthenticated ctx.services ctx.issuer fresh.now
          (credential_part caller.client)
          caller.credentials
          caller.client.token_endpoint_auth_method
    pub args : Redemption
    pub asked : read_redemption params caller.client_id ≡ ok args
    pub code_given : single params "code" ≡ ok (some args.code)
    pub sealed : Payload Held
    pub opened :
        unseal ctx.aead ctx.codes_codec fresh.now none ctx.secrets code_purpose args.code
        ≡ ok sealed
    pub live : is_past fresh.now (ctx.codes_codec.exp sealed) ≡ false
    pub issued : grant ≡ migrated sealed
    pub granted : IsGranted ctx.sha256 args grant
    pub bound : grant.client_id ≡ caller.client_id
    pub active :
        (id : String)
        → grant.local_identity_id ≡ some id
        → id ≢ ""
        → still_valid ctx.validate_local grant ≡ true

  abbrev pub IsCaller : Option Text → Params → Caller → Type 0
  IsCaller authorization params caller =
      (read_credentials ctx.services authorization params ≡ ok caller.credentials)
      × (caller.credentials.client_id ≡ some caller.client_id)
      × (ctx.resolve caller.client_id ≡ ok (some caller.client))
      × (single params "grant_type" ≡ ok (some grant_code))

  pub read_caller_sound :
      (authorization : Option Text) (params : Params) (caller : Caller)
      → read_caller ctx authorization params ≡ ok caller
      → IsCaller authorization params caller
  unfolding read_caller
  read_caller_sound authorization params caller h =
      let (given, r1, h1) = >>=-eq-ok (single params "grant_type") _ h in
      let (typed, h2) = >>-eq-ok (check_grant_type given) _ h1 in
      let (credentials, r3, h3) =
        >>=-eq-ok (read_credentials ctx.services authorization params) _ h2 in
      let (client_id, r4, h4) = >>=-eq-ok (require_client_id credentials) _ h3 in
      let (found, r5, h5) = >>=-eq-ok (from_thrown (ctx.resolve client_id)) _ h4 in
      let (client, r6, h6) = >>=-eq-ok (or_fail _ found) _ h5 in
      subst (IsCaller authorization params) (ok_injective h6) (
        r3,
        named credentials.client_id client_id r4,
        found-client _ found _ client r5 r6,
        rw (← grant_type-given given typed) r1,
      )
    where
      named :
          (o : Option Text) (id : Text)
          → or_fail (invalid_client "No client_id was presented.") o ≡ ok id
          → o ≡ some id
      named none id k = cc
      named (some c) id k = cc

  pub check_local_sound :
      (grant : Payload Held) (id : String)
      → check_local ctx.validate_local grant ≡ ok tt
      → grant.local_identity_id ≡ some id
      → id ≢ ""
      → still_valid ctx.validate_local grant ≡ true
  unfolding check_local
  check_local_sound grant id h e ne = ground (arith, rw e at h, ==_iff id "")

  pub answer-local :
      (fresh : Fresh) (client_id : Text) (grant : Payload Held) (response : TokenResponse)
      → answer ctx fresh client_id grant ≡ ok response
      → check_local ctx.validate_local grant ≡ ok tt
  unfolding answer
  answer-local fresh client_id grant response h =
      (>>-eq-ok (check_local ctx.validate_local grant) _ h).0
