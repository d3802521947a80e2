-- ===== src/Errors.antt =====
-- src/util/errors.js: the errors that the endpoints answer with.
use smart_access_gateway.Prelude.{ℕ, String, Bool, true, false, Option, none, some, Result, ok, err}
use smart_access_gateway.Store.{StoreError}

pub record OauthError : Type 0 where
  pub code : String
  pub description : String
  pub status : ℕ
  pub redirectable : Bool

-- What a handler may throw: an answer to the caller, an `UnredirectableError` of oauth/request.js,
-- which is such an answer too, another error by its
-- message, or a failure of the state store.
pub data Failure : Type 0 where
  oauth : OauthError → Failure
  unredirectable : OauthError → Failure
  thrown : String → Failure
  store_failed : StoreError → Failure

abbrev pub invalid_client : String → Failure
invalid_client d =
    oauth (record { code = "invalid_client"; description = d; status = 401; redirectable = false })

abbrev pub invalid_grant : String → Failure
invalid_grant d =
    oauth (record { code = "invalid_grant"; description = d; status = 400; redirectable = false })

-- `new OAuthError(code, description)`: neither redirectable nor of another status.
abbrev pub oauth_error : String → String → OauthError
oauth_error c d = record { code = c; description = d; status = 400; redirectable = false }

-- `new OAuthError(code, description, { redirect: true })`
abbrev pub relayed : String → String → OauthError
relayed c d = record { code = c; description = d; status = 400; redirectable = true }

abbrev pub server_error : String → OauthError
server_error d = record (relayed "server_error" d) { status = 500 }

abbrev pub access_denied : String → OauthError
access_denied d = relayed "access_denied" d

abbrev pub login_required : String → OauthError
login_required d = relayed "login_required" d

abbrev pub interaction_required : String → OauthError
interaction_required d = relayed "interaction_required" d

abbrev pub unmet_acr : String → OauthError
unmet_acr d = relayed "unmet_authentication_requirements" d

-- What a callback outside this model may throw: an `OAuthError`, or another error by its message.
pub data Thrown : Type 0 where
  known : OauthError → Thrown
  unknown : String → Thrown

-- `if (a === undefined) throw e`
abbrev pub or_fail : {A : Type 0} → Failure → Option A → Result Failure A
or_fail e none = err e
or_fail e (some a) = ok a

-- A call of the store inside a handler.
abbrev pub from_store : {A : Type 0} → Result StoreError A → Result Failure A
from_store (ok a) = ok a
from_store (err e) = err (store_failed e)
