-- ===== src/Endpoints/Authorize.antt =====
-- src/endpoints/authorize.js and endpoints/respond.js: the interactive flow. A page stands for the
-- HTML that shows it and carries the transaction that it seals; the display fields of a transaction
-- (client name, logo, policy links) are left out.
pub mod Complete
pub mod Codes
pub mod Route
pub mod Handlers
pub mod Silent
pub mod Decoys
pub mod Demands
pub mod Steps
pub mod Moves
pub mod Sessions
pub mod Reach
pub mod Live
pub mod Relayed
pub mod Local
pub mod Callback
pub mod Returns
use smart_access_gateway.Prelude.{ℕ, String, Bool, Option, List}
use smart_access_gateway.Util.Bytes.{Text, codes}
use smart_access_gateway.Util.Text.{text_Eq}
use smart_access_gateway.Errors.{OauthError, Failure, Thrown}
use smart_access_gateway.Store.{StateStore}
use smart_access_gateway.Crypto.Seal.{SealError, Aead, Codec}
use smart_access_gateway.Session.{SessionConfig, Session}
use smart_access_gateway.Limits.{Keys, OtpLimits}
use smart_access_gateway.Otp.{OtpConfig}
use smart_access_gateway.Profile.{Held}
use smart_access_gateway.Oauth.Code.{Payload}
use smart_access_gateway.Oauth.Transaction.{Tx}
use smart_access_gateway.Oauth.Request.{RequestServices, RequestConfig}

-- `tx.local_identity`
pub record Snapshot : Type 0 where
  pub id : String
  pub security_version : ℕ

abbrev pub Transaction : Type 0
Transaction = Tx Snapshot

-- A registration of an upstream provider, as far as the routing reads it.
pub record Upstream : Type 0 where
  pub id : Text
  pub is_common : Bool
  pub is_oidc : Bool
  pub mail_provider : Bool

-- What `hintUpstreams` answers.
pub record Hint : Type 0 where
  pub list : List Upstream
  pub hinted : Option Upstream
  pub unmatched : Bool

-- The notice on a code page, of which the last three follow a submitted code.
pub data Notice : Type 0 where
  too_many_codes : Notice
  not_sent : Notice
  code_expired : Notice
  too_many_attempts : Notice
  wrong_code : ℕ → Notice

-- What becomes of the remembered address: a rolled cookie, a cleared one, or nothing.
pub data Remember : Type 0 where
  roll : Text → Remember
  clear : Remember
  leave : Remember

-- A minted code on its way to the relying party, with the cookies of the same response.
pub record Completion : Type 0 where
  pub redirect_uri : Text
  pub response_mode : Text
  pub state : Option Text
  pub code : Text
  pub session : Session Held
  pub remember : Remember

-- Where an error may be sent.
pub record Target : Type 0 where
  pub redirect_uri : Option Text
  pub state : Option Text
  pub response_mode : Option Text

pub data Answer : Type 0 where
  email_page : Transaction → Option Text → Bool → Answer
  otp_page : Transaction → Option Notice → Option Text → Bool → Answer
  password_page : Transaction → Answer
  password_refused : Transaction → Answer
  second_factor_page : Transaction → List ℕ → Bool → Answer
  continue_page : Transaction → Session Held → Answer
  chooser_page : Transaction → List Upstream → Option Text → Answer
  to_upstream : Text → Answer
  relayed_error : Text → Option Text → Option Text → OauthError → Answer
  error_page : ℕ → Answer
  start_again : Answer
  completed : Completion → Answer

pub record FlowConfig : Type 0 where
  pub session : SessionConfig
  pub otp : OtpConfig
  pub otp_ttl_seconds : ℕ
  pub max_resends : ℕ
  pub max_attempts : ℕ
  pub limits : OtpLimits
  pub clock_skew_seconds : ℕ
  pub transaction_ttl_seconds : ℕ
  pub code_ttl_seconds : ℕ
  pub secrets : List Text
  pub first_secret : Text
  pub sanitise_plus_emails : Bool
  pub subject_type : Text
  pub hint_off : Bool
  pub hint_select : Bool
  pub explain_unknown : Bool

-- The components and the platform behind the flow. `derive` is the HKDF of a subject, `digest` that
-- of an emailed code, `send` the mail sender: `none` where it throws, else the code that a
-- development sender shows. `upstreams_for`, `hint` and `begin` stand for the provider registry,
-- `guess` for the claims guessed from an address, and `valid_local` for the local account store.
pub record Platform (S : Type 0) : Type 0 where
  pub store : Option (StateStore S)
  pub keys : Keys
  pub aead : Aead
  pub code_codec : Codec (Payload Held)
  pub tx_codec : Codec Transaction
  pub session_codec : Codec (Session Held)
  pub sha256 : Text → Text
  pub derive : Text → Text
  pub digest : String → Text → Text → Text
  pub send : Text → Text → Option (Option Text)
  pub guess : Text → Option Held
  pub valid_local : Option (Session Held → Bool)
  pub local_allowed : Text → Bool
  pub upstreams_for : Text → List Upstream
  pub hint : List Upstream → Text → Hint
  pub begin : Upstream → Transaction → Bool → Option Text

-- One request: the clock, the fresh values, and what the browser sent along.
pub record Moment : Type 0 where
  pub now : ℕ
  pub sid : String
  pub tx_id : String
  pub jti : String
  pub iv : List ℕ
  pub code : Text
  pub cookies : Text → Option Text
  pub remembered : Option Text
  pub has_remember_cookie : Bool
