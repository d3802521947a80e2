-- ===== src/Oauth/Code/Issue.antt =====
-- A code that this deployment issued can be redeemed.
use smart_access_gateway.Prelude.{
  ℕ, ◌+◌, ◌≤◌, String, ◌≡◌, refl, ◌≢◌, true, false, Option, none, some, List, [], ◌∷◌, arith, ok,
  length, includes, All, ◌==◌, nat_eq, string_eq,
}
use smart_access_gateway.Util.Bytes.{Text, IsByte}
use smart_access_gateway.Util.Text.{text_eq_iff, text_Eq}
use smart_access_gateway.Crypto.Seal.{Aead, Codec}
use smart_access_gateway.Crypto.Seal.Laws.{unseal-seal}
use smart_access_gateway.Store.{StateStore}
use smart_access_gateway.Session.{Session}
use smart_access_gateway.Oauth.Transaction.{Tx}
use smart_access_gateway.Oauth.Code.{
  Payload, code_purpose, issue_payload, issue_code, check_pkce, check_grant, spend, then_spend,
  redeem_code,
}

check_grant-issued :
    {C L : Type 0} (sha256 : Text → Text) (now ttl : ℕ) (jti : String) (tx : Tx L)
    (session : Session C) (sub email code : Text) (verifier : Option Text)
    → tx.request.redirect_uri ≢ []
    → check_pkce sha256 tx.request.code_challenge verifier ≡ ok tt
    → let payload = issue_payload now ttl jti tx session sub email in
      check_grant sha256
        (record {
          code = code;
          client_id = tx.request.client_id;
          redirect_uri = some tx.request.redirect_uri;
          code_verifier = verifier;
        })
        payload
      ≡ ok payload
unfolding check_grant issue_payload
check_grant-issued sha256 now ttl jti tx session sub email code verifier redirect pkce =
    let client = (text_eq_iff tx.request.client_id tx.request.client_id).1 refl in
    let same = (text_eq_iff tx.request.redirect_uri tx.request.redirect_uri).1 refl in
    rw (client, same, pkce, length_pos tx.request.redirect_uri redirect)
  where
    length_pos : (u : Text) → u ≢ [] → (length u == 0) ≡ false
    length_pos [] h = absurd (h refl)
    length_pos (c ∷ u) h = ground arith

-- A code issued at `now`, whose payload JSON reads back with its `exp`, is presented by its own
-- client with its own redirect URI, which is not empty, and a verifier that meets its challenge,
-- before it expires and under secrets that hold the one it was sealed with, which is not empty.
-- The redemption is decided by the replay check alone, and it is the issued payload that is spent
-- and returned.
pub redeem_code-issue_code :
    {C L S : Type 0} (aead : Aead) (codec : Codec (Payload C)) (sha256 : Text → Text)
    (now ttl t : ℕ) (jti : String) (iv : List ℕ) (secret : Text) (secrets : List Text) (tx : Tx L)
    (session : Session C) (sub email : Text) (verifier : Option Text)
    (store : Option (StateStore S)) (s : S)
    → codec.parse (codec.stringify (issue_payload now ttl jti tx session sub email))
      ≡ some (issue_payload now ttl jti tx session sub email)
    → codec.exp (issue_payload now ttl jti tx session sub email) ≡ some (now + ttl)
    → All IsByte iv
    → secret ≢ []
    → includes secret secrets ≡ true
    → tx.request.redirect_uri ≢ []
    → check_pkce sha256 tx.request.code_challenge verifier ≡ ok tt
    → t ≤ now + ttl
    → redeem_code aead codec sha256 t secrets
        (record {
          code = issue_code aead codec now ttl jti iv secret tx session sub email;
          client_id = tx.request.client_id;
          redirect_uri = some tx.request.redirect_uri;
          code_verifier = verifier;
        })
        store
        s
      ≡ spend t store (issue_payload now ttl jti tx session sub email) s
unfolding redeem_code issue_code then_spend
redeem_code-issue_code aead codec sha256 now ttl t jti iv secret secrets tx session sub email
      verifier store s reads exp bytes ne held redirect pkce le =
    let payload = issue_payload now ttl jti tx session sub email in
    let opened =
      unseal-seal aead codec secret code_purpose iv payload (omega arith) bytes t none secrets reads
        held ne (rw exp (ground arith)) refl in
    rw opened (
      rw (check_grant-issued sha256 now ttl jti tx session sub email _ verifier redirect pkce) refl)
