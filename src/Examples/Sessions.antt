-- ===== src/Examples/Sessions.antt =====
-- A session that is created, used, revoked and read again.
use smart_access_gateway.Prelude.{
  ℕ, ◌+◌, ◌≤◌, ◌≡◌, refl, ◌≢◌, true, false, none, some, [], ◌∷◌, arith, Result, ok, ==_iff, nat_eq,
  string_eq,
}
use smart_access_gateway.Prelude.Maps.{lookup}
use smart_access_gateway.Util.Bytes.{Text, codes}
use smart_access_gateway.Util.Text.{text_eq, text_Eq}
use smart_access_gateway.Crypto.Seal.{SealError}
use smart_access_gateway.Store.Memory.{empty, claim, has}
use smart_access_gateway.Store.Memory.Claims.{claimed}
use smart_access_gateway.Store.Memory.Traces.{memory_state_store}
use smart_access_gateway.Store.Calls.{run, claim_call}
use smart_access_gateway.Session.{
  is_revoked, SessionConfig, Session, Authentication, new_session, touch, session_is_fresh,
  revoke_session, revocation_key, read_session, migrated,
}
use smart_access_gateway.Session.Lifetime.{touched, apply_all, apply, fresh_within_lifetime}
use smart_access_gateway.Session.Revocation.{revoked_unreadable, read_session_sound}

abbrev config : SessionConfig
config = record {
  cookie_name = codes "sag";
  scope = "shared";
  idle_ttl_seconds = 600;
  max_lifetime_seconds = 3600;
}

abbrev person : Authentication ℕ
person = record {
  email_verified = some true;
  acr = "urn:sag:acr:email-otp";
  amr = none;
  auth_time = none;
  upstream = none;
  upstream_label = none;
  claims = none;
  local_identity_id = none;
  local_identity_key = none;
  local_security_version = none;
}

-- The session as it is stored, with every field written out.
abbrev stored : Session ℕ
stored = record {
  sid = "s1";
  email = codes "a@b.c";
  email_verified = some true;
  acr = "urn:sag:acr:email-otp";
  amr = [];
  auth_time = 5;
  upstream = none;
  upstream_label = none;
  claims = none;
  local_identity_id = none;
  local_identity_key = none;
  local_security_version = none;
  iat = 5;
  exp = 605;
  abs = 3605;
}

still_fresh :
    session_is_fresh 700 60 none
      (apply_all config (touched 500 ∷ []) (new_session config 5 "s1" (codes "a@b.c") person))
    ≡ true
unfolding session_is_fresh apply_all apply touch new_session
still_fresh = refl

fresh_within_lifetime_example : 700 ≤ 5 + config.max_lifetime_seconds
fresh_within_lifetime_example =
    fresh_within_lifetime config 5 700 60 none "s1" (codes "a@b.c") person (touched 500 ∷ [])
      still_fresh

abbrev cookie : Text
cookie = codes "c"

abbrev open_cookie : Text → Result SealError (Session ℕ)
open_cookie raw = ok stored

has_sid : stored.sid ≢ ""
has_sid e = not_true ((==_iff "s1" "").1 e)
  where
    not_true : false ≡ true → ⊥
    not_true k = cc

unclaimed : memory_state_store.claimed 50 (empty 9) (revocation_key stored.sid) ≡ false
unfolding claimed lookup
unclaimed = refl

revoked : (revoke_session 50 (some memory_state_store) stored (empty 9)).0 ≡ ok tt
unfolding revoke_session claim lookup
revoked = refl

revoked_unreadable_example :
    (read_session 60 open_cookie (some memory_state_store) (some cookie) (
      run memory_state_store
        (claim_call 55 "x" 9 ∷ [])
        (revoke_session 50 (some memory_state_store) stored (empty 9)).1)).0
    ≡ ok none
revoked_unreadable_example =
    revoked_unreadable memory_state_store 50 60 stored (empty 9) (claim_call 55 "x" 9 ∷ [])
      open_cookie cookie stored has_sid (omega arith) unclaimed revoked (omega arith, tt) refl refl
      refl

read_back :
    (read_session 60 open_cookie (some memory_state_store) (some cookie) (empty 9)).0
    ≡ ok (some stored)
unfolding read_session has lookup text_eq is_revoked
read_back = refl

read_session_sound_example :
    (opened : Session ℕ) × (open_cookie cookie ≡ ok opened)
    × (stored ≡ migrated opened)
    × (60 ≤ opened.abs)
    × (opened.email ≢ [])
    × (opened.sid ≢ "")
    × (memory_state_store.claimed 60 (empty 9) (revocation_key opened.sid) ≡ false)
read_session_sound_example =
    read_session_sound memory_state_store 60 open_cookie cookie (empty 9) stored read_back
