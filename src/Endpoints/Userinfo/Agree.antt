-- ===== src/Endpoints/Userinfo/Agree.antt =====
-- The userinfo endpoint and the id_token say the same of a sign-in.
use smart_access_gateway.Prelude.{
  ℕ, ◌+◌, ◌≤◌, String, ◌≡◌, refl, ◌≢◌, Bool, true, false, Option, none, some, List, [], arith,
  includes, All, nat_eq, string_eq,
}
use smart_access_gateway.Util.Bytes.{Text, IsByte}
use smart_access_gateway.Util.Text.{text_Eq}
use smart_access_gateway.Crypto.Seal.{Aead, Codec, seal}
use smart_access_gateway.Crypto.Seal.Laws.{unseal-seal}
use smart_access_gateway.Session.{is_true}
use smart_access_gateway.Profile.{Held}
use smart_access_gateway.Oauth.Code.{Payload}
use smart_access_gateway.Oauth.Tokens.{
  TokenConfig, IdClaims, AccessGrant, access_purpose, disclose, id_token_claims, access_grant,
  issue_access_token, read_access_token,
}
use smart_access_gateway.Endpoints.Userinfo.{UserClaims, claims, user_claims, answer_token}

-- The claims of the id_token that the userinfo endpoint repeats.
unfoldable pub shared_claims : IdClaims → UserClaims
shared_claims id = record {
  sub = id.sub;
  email = id.email;
  email_verified = id.email_verified;
  profile = id.profile;
  acr = id.acr;
  amr = id.amr;
  auth_time = id.auth_time;
}

is_true-again : (b : Option Bool) → is_true (some (is_true b)) ≡ is_true b
is_true-again none = refl
is_true-again (some false) = refl
is_true-again (some true) = refl

-- An access token that was issued for a grant, whose payload JSON reads back with its `exp`, opens
-- until it expires under secrets that hold the one it was sealed with, which is not empty. The
-- userinfo endpoint then answers with exactly the subject, the email, its verification, the
-- profile and the authentication context of the id_token that was issued with it.
pub answer_token-id_token_claims :
    (aead : Aead) (codec : Codec AccessGrant) (config : TokenConfig) (hash : Text → Text)
    (now t : ℕ) (jti : String) (iv : List ℕ) (secret : Text) (secrets : List Text)
    (grant : Payload Held) (audience : Text) (given : Option Text)
    → codec.parse (codec.stringify (access_grant config now jti grant))
      ≡ some (access_grant config now jti grant)
    → codec.exp (access_grant config now jti grant) ≡ some (now + config.access_token_ttl_seconds)
    → All IsByte iv
    → secret ≢ []
    → includes secret secrets ≡ true
    → t ≤ now + config.access_token_ttl_seconds
    → let token = issue_access_token aead codec config now jti iv secret grant in
      answer_token aead codec config.profile t secrets (some token)
      ≡ claims (shared_claims (id_token_claims config hash now grant audience token given))
unfolding answer_token issue_access_token read_access_token shared_claims id_token_claims
    user_claims access_grant disclose seal
answer_token-id_token_claims aead codec config hash now t jti iv secret secrets grant audience given
      reads exp bytes ne held le =
    let opened =
      unseal-seal aead codec secret access_purpose iv (access_grant config now jti grant)
        (omega arith) bytes t none secrets reads held ne (rw exp (ground arith)) refl in
    rw opened (rw (is_true-again grant.email_verified) refl)
