-- ===== src/Endpoints/Userinfo.antt =====
-- src/endpoints/userinfo.js: the claims behind an access token. The body is given where the request
-- is a POST of a form.
pub mod Agree
use smart_access_gateway.Prelude.{
  ℕ, String, Bool, false, Option, none, some, List, [], ◌∷◌, Result, ok, ◌>>=◌, take, drop, ◌==◌,
  nat_eq, string_eq, if◌then◌else◌, or_default,
}
use smart_access_gateway.Util.Bytes.{Text, codes}
use smart_access_gateway.Util.Text.{text_Eq, to_lower}
use smart_access_gateway.Util.Http.{Params, single}
use smart_access_gateway.Errors.{Failure}
use smart_access_gateway.Identity.{trim}
use smart_access_gateway.Crypto.Seal.{Aead, Codec}
use smart_access_gateway.Profile.{ProfileConfig, Outbound}
use smart_access_gateway.Oauth.Tokens.{AccessGrant, disclose, read_access_token}

pub record UserClaims : Type 0 where
  pub sub : Text
  pub email : Option Text
  pub email_verified : Bool
  pub profile : Option Outbound
  pub acr : String
  pub amr : List String
  pub auth_time : ℕ

pub data UserinfoAnswer : Type 0 where
  claims : UserClaims → UserinfoAnswer
  unauthorised : Option String → String → UserinfoAnswer

abbrev bearer_scheme : Text
bearer_scheme = codes "bearer "

-- `header && /^bearer /i.test(header)`
unfoldable pub is_bearer : Option Text → Bool
is_bearer none = false
is_bearer (some header) = to_lower (take 7 header) == bearer_scheme

abbrev form_token : Option Params → Result Failure (Option Text)
form_token none = ok none
form_token (some params) = single params "access_token"

abbrev text_of : Option Text → Text
text_of header = trim (drop 7 (or_default header []))

-- `presentedToken`: an empty text counts as none.
unfoldable pub presented_token : Option Text → Option Params → Result Failure (Option Text)
presented_token header form =
    if is_bearer header then ok (some (text_of header)) else form_token form

unfoldable pub user_claims : ProfileConfig → AccessGrant → UserClaims
user_claims config grant =
    let out = disclose config grant.scope grant.email grant.email_verified grant.claims in
    record {
      sub = grant.sub;
      email = out.email;
      email_verified = out.email_verified;
      profile = out.profile;
      acr = grant.acr;
      amr = grant.amr;
      auth_time = grant.auth_time;
    }

abbrev or_unauthorised : ProfileConfig → Option AccessGrant → UserinfoAnswer
or_unauthorised config none =
    unauthorised (some "invalid_token") "The access token is invalid or has expired."
or_unauthorised config (some grant) = claims (user_claims config grant)

unfoldable pub answer_token :
    Aead → Codec AccessGrant → ProfileConfig → ℕ → List Text → Option Text → UserinfoAnswer
answer_token aead codec config now secrets none =
    unauthorised none "Present an access token in the Authorization header."
answer_token aead codec config now secrets (some []) =
    unauthorised none "Present an access token in the Authorization header."
answer_token aead codec config now secrets (some (c ∷ token)) =
    or_unauthorised config (read_access_token aead codec now secrets (c ∷ token))

-- `handleUserinfo`
unfoldable pub handle_userinfo :
    Aead
    → Codec AccessGrant
    → ProfileConfig
    → ℕ
    → List Text
    → Option Text
    → Option Params
    → Result Failure UserinfoAnswer
handle_userinfo aead codec config now secrets header form =
    presented_token header form >>= λ token. ok (answer_token aead codec config now secrets token)
