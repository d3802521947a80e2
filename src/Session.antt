-- ===== src/Session.antt =====
-- src/session.js: the sealed sign-in session, its two lifetimes, its revocation and its cookies. The
-- clock, the random identifiers, the hash and the sealing of `crypto/secrets.js` are arguments; a
-- profile-claims object is of an opaque type `C`.

pub mod Lifetime
pub mod Revocation
pub mod Cookies
use Prim.Native.String.{◌++◌ as str_append}
use smart_access_gateway.Prelude.{
  ℕ, ◌+◌, ◌-◌, min, String, Bool, true, false, not, ◌||◌, Option, none, some, List, [], ◌∷◌, ◌++◌,
  Result, ok, err, ◌>>=◌, ◌>>◌, take, keep, ltb, ◌==◌, nat_eq, string_eq, if◌then◌else◌, or_default,
}
use smart_access_gateway.Util.Bytes.{Text, codes}
use smart_access_gateway.Util.Text.{text_Eq, starts_with}
use smart_access_gateway.Crypto.Seal.{SealError}
use smart_access_gateway.Store.{StateStore, StoreError}

pub record SessionConfig : Type 0 where
  pub cookie_name : Text
  pub scope : String
  pub idle_ttl_seconds : ℕ
  pub max_lifetime_seconds : ℕ

pub record Session (C : Type 0) : Type 0 where
  pub sid : String
  pub email : Text
  pub email_verified : Option Bool
  pub acr : String
  pub amr : List String
  pub auth_time : ℕ
  pub upstream : Option String
  pub upstream_label : Option String
  pub claims : Option C
  pub local_identity_id : Option String
  pub local_identity_key : Option String
  pub local_security_version : Option ℕ
  pub iat : ℕ
  pub exp : ℕ
  pub abs : ℕ

-- The arguments of `newSession` and `reauthenticate`.
pub record Authentication (C : Type 0) : Type 0 where
  pub email_verified : Option Bool
  pub acr : String
  pub amr : Option (List String)
  pub auth_time : Option ℕ
  pub upstream : Option String
  pub upstream_label : Option String
  pub claims : Option C
  pub local_identity_id : Option String
  pub local_identity_key : Option String
  pub local_security_version : Option ℕ

-- `value === true`
abbrev pub is_true : Option Bool → Bool
is_true (some true) = true
is_true _ = false

module _ {C : Type 0} (config : SessionConfig) (now : ℕ) where
  unfoldable pub new_session : String → Text → Authentication C → Session C
  new_session sid email args = record {
    sid = sid;
    email = email;
    email_verified = some (is_true args.email_verified);
    acr = args.acr;
    amr = or_default args.amr [];
    auth_time = or_default args.auth_time now;
    upstream = args.upstream;
    upstream_label = args.upstream_label;
    claims = args.claims;
    local_identity_id = args.local_identity_id;
    local_identity_key = args.local_identity_key;
    local_security_version = args.local_security_version;
    iat = now;
    exp = now + config.idle_ttl_seconds;
    abs = now + config.max_lifetime_seconds;
  }

  unfoldable pub reauthenticate : Session C → Option Text → Authentication C → Session C
  reauthenticate session email args = record session {
    email = or_default email session.email;
    email_verified = some (is_true args.email_verified);
    acr = args.acr;
    amr = or_default args.amr [];
    auth_time = now;
    upstream = args.upstream;
    upstream_label = args.upstream_label;
    claims = args.claims;
    local_identity_id = args.local_identity_id;
    local_identity_key = args.local_identity_key;
    local_security_version = args.local_security_version;
    exp = now + config.idle_ttl_seconds;
  }

  unfoldable pub touch : Session C → Session C
  touch session = record session { exp = min (now + config.idle_ttl_seconds) session.abs }

-- `sessionIsFresh`
unfoldable pub session_is_fresh : {C : Type 0} → ℕ → ℕ → Option ℕ → Session C → Bool
session_is_fresh now clock_skew max_age session =
    if ltb (session.exp + clock_skew) now
    then false
    else if ltb session.abs now
    then false
    else elim max_age [ none ↦ true | some age ↦ not (ltb (session.auth_time + age) now) ]

-- `revocationKey`
unfoldable pub revocation_key : String → String
revocation_key sid = str_append "session-revoked:" sid

module _ {C S : Type 0} where
  unfoldable pub revoke_in : ℕ → StateStore S → Session C → S → Result StoreError (Unit {0}) × S
  revoke_in now store session s =
      if session.sid == ""
      then (ok tt, s)
      else if ltb now session.abs
      then (let (r, s') = store.claim now (revocation_key session.sid) (session.abs - now) s in
          (r >> ok tt, s'))
      else (ok tt, s)

  -- `revokeSession`; a session always has a finite `abs`.
  unfoldable pub revoke_session :
      ℕ → Option (StateStore S) → Session C → S → Result StoreError (Unit {0}) × S
  unfolding revoke_in
  revoke_session now none session s = (ok tt, s)
  revoke_session now (some store) session s = revoke_in now store session s

module _ {S : Type 0} where
  -- `await stateStore.has(revocationKey(sid))`, where there is a store.
  unfoldable pub is_revoked : ℕ → Option (StateStore S) → String → S → Result StoreError Bool × S
  is_revoked now none sid s = (ok false, s)
  is_revoked now (some store) sid s = store.has now (revocation_key sid) s

module _ {C : Type 0} where
  -- Version 1 cookies that pre-date local identities keep the fact that their address was proved.
  abbrev pub migrated : Session C → Session C
  migrated session = elim session.email_verified [
    | some v ↦ session
    | none ↦ elim session.local_identity_id [
      | none ↦ record session { email_verified = some true }
      | some id ↦ if id == "" then record session { email_verified = some true } else session
    ]
  ]

  after_revocation : Session C → Result StoreError Bool → Result StoreError (Option (Session C))
  after_revocation session r =
      r >>= λ revoked. ok (if revoked then none else some (migrated session))

module _ {C S : Type 0} where
  unfoldable pub validate_session :
      ℕ
      → Option (StateStore S)
      → Result SealError (Session C)
      → S
      → Result StoreError (Option (Session C)) × S
  unfolding after_revocation
  validate_session now store (err e) s = (ok none, s)
  validate_session now store (ok session) s =
      if ltb session.abs now
      then (ok none, s)
      else if session.email == [] || session.sid == ""
      then (ok none, s)
      else let (r, s') = is_revoked now store session.sid s in (after_revocation session r, s')

  -- `readSessionByName`: `raw` is the cookie of that name, and `unseal` opens it under the purpose
  -- of sessions. A missing or empty cookie is no session.
  unfoldable pub read_session :
      ℕ
      → (Text → Result SealError (Session C))
      → Option (StateStore S)
      → Option Text
      → S
      → Result StoreError (Option (Session C)) × S
  unfolding validate_session
  read_session now unseal store none s = (ok none, s)
  read_session now unseal store (some []) s = (ok none, s)
  read_session now unseal store (some (c ∷ raw)) s = validate_session now store (unseal (c ∷ raw)) s

-- The characters that `.replaceAll('-', '').replaceAll('_', '')` drops.
abbrev pub is_separator : ℕ → Bool
is_separator c = c == b'-' || c == b'_'

-- `cookieNameFor`: `sha256` is the digest of a text as base64url, and a missing or empty client id
-- means the shared cookie.
unfoldable pub cookie_name_for : (Text → Text) → SessionConfig → Option Text → Text
cookie_name_for sha256 config none = config.cookie_name
cookie_name_for sha256 config (some []) = config.cookie_name
cookie_name_for sha256 config (some (c ∷ id)) =
    let tag = keep (λ d. not (is_separator d)) (take 12 (sha256 (codes "cookie " ++ c ∷ id))) in
    config.cookie_name ++ (b'_' ∷ tag)

-- `sessionClientFor`: the client's own scope, when it has one, comes before the configured one.
unfoldable pub session_client_for : SessionConfig → Option String → Text → Option Text
session_client_for config client_scope client_id =
    let chosen = or_default client_scope "" in
    let scope = if chosen == "" then config.scope else chosen in
    if scope == "rp" then some client_id else none

-- `allSessionCookieNames`, over the names of the cookies that the browser holds.
unfoldable pub all_session_cookie_names : SessionConfig → List Text → List Text
all_session_cookie_names config =
    keep (λ n. n == config.cookie_name || starts_with n (config.cookie_name ++ b'_' ∷ []))
