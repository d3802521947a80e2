-- ===== src/Oauth/Code.antt =====
-- src/oauth/code.js: authorisation codes. The sealing of the payload is that of `Crypto.Seal`; the
-- hash of PKCE is an argument.
pub mod Redeem
pub mod Issue
use Prim.Native.String.{◌++◌ as str_append}
use smart_access_gateway.Prelude.{
  ℕ, ◌+◌, ◌-◌, String, Bool, true, not, ◌&&◌, ◌||◌, Option, none, some, List, [], ◌∷◌, Result, ok,
  err, ◌>>=◌, ◌>>◌, throw_if, length, all, leb, ◌==◌, nat_eq, string_eq, if◌then◌else◌, or_default,
}
use smart_access_gateway.Util.Bytes.{Text, codes, timing_safe_equal}
use smart_access_gateway.Util.Text.{text_Eq}
use smart_access_gateway.Crypto.Seal.{SealError, Aead, Codec, seal, unseal}
use smart_access_gateway.Store.{StateStore, StoreError}
use smart_access_gateway.Errors.{Failure, invalid_grant, from_store}
use smart_access_gateway.Session.{Session, is_true}
use smart_access_gateway.Oauth.Transaction.{Tx}

pub record Payload (C : Type 0) : Type 0 where
  pub v : ℕ
  pub jti : String
  pub client_id : Text
  pub redirect_uri : Text
  pub scope : List Text
  pub nonce : Option Text
  pub code_challenge : Option Text
  pub code_challenge_method : Option Text
  pub id_token_alg : Option Text
  pub resource : Option (List Text)
  pub sub : Text
  pub email : Text
  pub email_verified : Option Bool
  pub acr : String
  pub amr : List String
  pub auth_time : ℕ
  pub sid : String
  pub claims : Option C
  pub local_identity_id : Option String
  pub local_identity_key : Option String
  pub local_security_version : Option ℕ
  pub iat : ℕ
  pub exp : ℕ

-- `const PURPOSE = 'code'`
abbrev pub code_purpose : Text
code_purpose = codes "code"

-- `tx.resource?.length ? tx.resource : undefined`
abbrev pub non_empty : List Text → Option (List Text)
non_empty [] = none
non_empty (r ∷ rs) = some (r ∷ rs)

-- The payload that `issueCode` builds: `ttl` is `config.tokens.authorizationCodeTtlSeconds`.
unfoldable pub issue_payload :
    {C L : Type 0} → ℕ → ℕ → String → Tx L → Session C → Text → Text → Payload C
issue_payload now ttl jti tx session sub email = record {
  v = 1;
  jti = jti;
  client_id = tx.request.client_id;
  redirect_uri = tx.request.redirect_uri;
  scope = tx.request.scope;
  nonce = tx.request.nonce;
  code_challenge = tx.request.code_challenge;
  code_challenge_method = tx.request.code_challenge_method;
  id_token_alg = tx.request.id_token_alg;
  resource = non_empty tx.request.resource;
  sub = sub;
  email = email;
  email_verified = some (is_true session.email_verified);
  acr = session.acr;
  amr = session.amr;
  auth_time = session.auth_time;
  sid = session.sid;
  claims = session.claims;
  local_identity_id = session.local_identity_id;
  local_identity_key = session.local_identity_key;
  local_security_version = session.local_security_version;
  iat = now;
  exp = now + ttl;
}

-- The class `[A-Za-z0-9\-._~]`, and the whole of `/^[A-Za-z0-9\-._~]{43,128}$/`.
abbrev pub is_unreserved : ℕ → Bool
is_unreserved c =
    leb b'A' c && leb c b'Z'
    || leb b'a' c && leb c b'z'
    || leb b'0' c && leb c b'9'
    || c == b'-'
    || c == b'.'
    || c == b'_'
    || c == b'~'

unfoldable pub is_pkce_text : Text → Bool
is_pkce_text text = all is_unreserved text && leb 43 (length text) && leb (length text) 128

pub record Redemption : Type 0 where
  pub code : Text
  pub client_id : Text
  pub redirect_uri : Option Text
  pub code_verifier : Option Text

abbrev pub bad_code : Failure
bad_code = invalid_grant "The authorization code is invalid or has expired."

-- `'authorization-code:' + payload.jti`
unfoldable pub code_key : String → String
code_key jti = str_append "authorization-code:" jti

-- The verifier against a challenge: an empty one counts as missing.
unfoldable pub check_verifier : (Text → Text) → Text → Option Text → Result Failure (Unit {0})
check_verifier sha256 challenge none =
    err (invalid_grant "A code_verifier is required for this authorization code.")
check_verifier sha256 challenge (some []) =
    err (invalid_grant "A code_verifier is required for this authorization code.")
check_verifier sha256 challenge (some (c ∷ verifier)) = do
  throw_if (not (is_pkce_text (c ∷ verifier))) (invalid_grant "The code_verifier is malformed.")
  throw_if (not (timing_safe_equal (sha256 (c ∷ verifier)) challenge))
      (invalid_grant "The code_verifier does not match the code_challenge.")

unfoldable pub check_pkce : (Text → Text) → Option Text → Option Text → Result Failure (Unit {0})
unfolding check_verifier
check_pkce sha256 none verifier = ok tt
check_pkce sha256 (some []) verifier = ok tt
check_pkce sha256 (some (c ∷ challenge)) verifier = check_verifier sha256 (c ∷ challenge) verifier

module _ {C : Type 0} where
  -- Codes from before local identities had no evidence flag.
  abbrev pub migrated : Payload C → Payload C
  migrated payload = elim payload.email_verified [
    | some e ↦ payload
    | none ↦ elim payload.local_identity_id [
      | none ↦ record payload { email_verified = some true }
      | some id ↦ if id == "" then record payload { email_verified = some true } else payload
    ]
  ]

  -- The checks that need no store, in their order.
  unfoldable pub check_grant : (Text → Text) → Redemption → Payload C → Result Failure (Payload C)
  check_grant sha256 args sealed = do
    throw_if (not (sealed.v == 1)) bad_code
    let payload = migrated sealed
    throw_if (not (payload.client_id == args.client_id))
        (invalid_grant "The authorization code was not issued to this client.")
    throw_if
        (length (or_default args.redirect_uri []) == 0
          || not (payload.redirect_uri == or_default args.redirect_uri []))
        (invalid_grant "The redirect_uri does not match the one used to obtain this code.")
    check_pkce sha256 payload.code_challenge args.code_verifier
    ok payload

  abbrev pub if_fresh : Payload C → Result StoreError Bool → Result Failure (Payload C)
  if_fresh payload r = do
    fresh ← from_store r
    throw_if (not fresh) (invalid_grant "This authorization code has already been used.")
    ok payload

  abbrev pub or_bad_code : Result SealError (Payload C) → Result Failure (Payload C)
  or_bad_code (ok p) = ok p
  or_bad_code (err e) = err bad_code

  module _ {S : Type 0} where
    -- The replay check; the payload has been unsealed, so `now` is at most its `exp`.
    unfoldable pub spend :
        ℕ → Option (StateStore S) → Payload C → S → Result Failure (Payload C) × S
    spend now none payload s = (ok payload, s)
    spend now (some store) payload s =
        let (r, s') = store.claim now (code_key payload.jti) (payload.exp + 60 - now) s in
        (if_fresh payload r, s')

    unfoldable pub then_spend :
        ℕ → Option (StateStore S) → Result Failure (Payload C) → S → Result Failure (Payload C) × S
    then_spend now store (err e) s = (err e, s)
    then_spend now store (ok payload) s = spend now store payload s

    -- `redeemCode`
    unfoldable pub redeem_code :
        Aead
        → Codec (Payload C)
        → (Text → Text)
        → ℕ
        → List Text
        → Redemption
        → Option (StateStore S)
        → S
        → Result Failure (Payload C) × S
    redeem_code aead codec sha256 now secrets args store s =
        then_spend now store
          (do
            p ← or_bad_code (unseal aead codec now none secrets code_purpose args.code)
            check_grant sha256 args p)
          s

-- `issueCode`
unfoldable pub issue_code :
    {C L : Type 0}
    → Aead
    → Codec (Payload C)
    → ℕ
    → ℕ
    → String
    → List ℕ
    → Text
    → Tx L
    → Session C
    → Text
    → Text
    → Text
issue_code aead codec now ttl jti iv secret tx session sub email =
    seal aead codec secret code_purpose iv (issue_payload now ttl jti tx session sub email)
