-- ===== src/Endpoints/Authorize/Local.antt =====
-- The local password and the second factor. The records and the checks of local-identities/index.js
-- that stand behind them are an argument: how a record is found, Argon2id, and the check of a
-- second factor, which is told whether to consume what it accepts.
pub mod Checked
pub mod Confirmed
pub mod Factor
pub mod Pages
use smart_access_gateway.Prelude.{
  ℕ, String, Bool, true, false, not, ◌&&◌, ◌||◌, Option, none, some, List, [], map, ok, ◌>>◌,
  length, leb, ◌==◌, nat_eq, string_eq, if◌then◌else◌, or_default,
}
use smart_access_gateway.Util.Bytes.{Text, codes}
use smart_access_gateway.Util.Text.{text_Eq, spell}
use smart_access_gateway.Util.Http.{Params, single}
use smart_access_gateway.Errors.{Failure}
use smart_access_gateway.Crypto.Jose.{TextClaim}
use smart_access_gateway.Session.{Session, Authentication, new_session, reauthenticate}
use smart_access_gateway.Limits.{LocalLimits, Decision, check_local_auth_allowed}
use smart_access_gateway.Acr.{acr_for_local, satisfies}
use smart_access_gateway.Profile.{Held, ProfileConfig, relayed_claims}
use smart_access_gateway.Clients.{Client}
use smart_access_gateway.Oauth.Transaction.{Stage, local_password, local_mfa}
use smart_access_gateway.Endpoints.Handler.{Handler, from_result, ◌>>=◌, continue_with}
use smart_access_gateway.Endpoints.Authorize.{
  Snapshot, Transaction, Answer, password_refused, second_factor_page, start_again, FlowConfig,
  Platform, Moment,
}
use smart_access_gateway.Endpoints.Authorize.Complete.{
  given_id, session_of, valid_session, complete,
}
use smart_access_gateway.Endpoints.Authorize.Codes.{address_of}

-- A record of a local account, as far as the sign-in reads it.
pub record Account : Type 0 where
  pub id : String
  pub key : String
  pub security_version : ℕ
  pub disabled : Bool
  pub mfa_required : Bool
  pub password : Text
  pub totp_digits : List ℕ
  pub claims : Text → TextClaim

-- What a second factor was, and the record after its use.
pub record Proof : Type 0 where
  pub account : Account
  pub method : Text

-- The store of local accounts. `verify` is Argon2id with the hash of a record, `none` where it
-- throws, and `verify_dummy` that with the hash that stands in for a missing record.
pub record LocalStore (S : Type 0) : Type 0 where
  pub find : Text → S → Option Account
  pub byte_length : Text → ℕ
  pub max_password_bytes : ℕ
  pub verify : Text → Text → Option Bool
  pub verify_dummy : Text → Bool
  pub verify_second_factor : Account → Option Text → ℕ → Bool → S → Option Proof × S

pub record LocalContext (S : Type 0) : Type 0 where
  pub store : Option (LocalStore S)
  pub limits : LocalLimits
  pub network : Option Text
  pub profile : ProfileConfig

abbrev pub is_enabled : Option Account → Bool
is_enabled none = false
is_enabled (some account) = not account.disabled

abbrev pub or_dummy : Bool → Option Bool → Bool
or_dummy dummy none = dummy
or_dummy dummy (some good) = good

module _ {S : Type 0} where
  abbrev pub hash_verdict : LocalStore S → Bool → Option Account → Text → Bool
  hash_verdict store fits none value = store.verify_dummy value
  hash_verdict store fits (some account) value =
      if fits && not account.disabled
      then or_dummy (store.verify_dummy value) (store.verify account.password value)
      else store.verify_dummy value

  -- `verifyPassword`
  unfoldable pub verify_password : LocalStore S → Option Account → Option Text → Bool
  verify_password store found password =
      let fits = leb (store.byte_length (or_default password [])) store.max_password_bytes in
      hash_verdict store fits found
        (if fits then or_default password [] else codes "password-too-long")
      && fits
      && is_enabled found

abbrev pub is_password_stage : Stage → Bool
is_password_stage local_password = true
is_password_stage other = false

abbrev pub is_mfa_stage : Stage → Bool
is_mfa_stage local_mfa = true
is_mfa_stage other = false

unfoldable pub refuse_password : Transaction → Answer
refuse_password tx = password_refused (record tx { stage = local_password })

unfoldable pub ask_factor : Transaction → List ℕ → Bool → Answer
ask_factor tx digits failed = second_factor_page (record tx { stage = local_mfa }) digits failed

-- The record that a page of the second factor was asked for, still as it was.
abbrev pub is_expected : Option Account → Option Snapshot → Bool
is_expected none snapshot = false
is_expected (some account) none = false
is_expected (some account) (some snapshot) =
    not account.disabled
    && account.id == snapshot.id
    && account.security_version == snapshot.security_version

abbrev pub has_snapshot : Option Snapshot → Bool
has_snapshot none = false
has_snapshot (some snapshot) = not (snapshot.id == "")

abbrev pub digits_of : Option Account → List ℕ
digits_of none = []
digits_of (some account) = account.totp_digits

-- `acrForLocal(requiresSecondFactor ? 'totp' : undefined)`
abbrev pub potential : Account → Option Text
potential account = if account.mfa_required then some (codes "totp") else none

module _ {S : Type 0} (config : FlowConfig) (platform : Platform S) (moment : Moment)
    (local : LocalContext S) where
  unfoldable pub local_sign_in : Transaction → Account → Option Text → Authentication Held
  local_sign_in tx account factor = record {
    email_verified = some false;
    acr = (acr_for_local factor).acr;
    amr = some (map spell (acr_for_local factor).amr);
    auth_time = none;
    upstream = none;
    upstream_label = none;
    claims = relayed_claims local.profile account.claims none;
    local_identity_id = some account.id;
    local_identity_key = some account.key;
    local_security_version = some account.security_version;
  }

  abbrev pub same_account : Account → Session Held → Bool
  same_account account session = elim session.local_identity_id [
    | none ↦ false
    | some id ↦ id == account.id
  ]

  unfoldable pub local_session :
      Transaction → Account → Option Text → Option (Session Held) → Session Held
  local_session tx account factor none =
      new_session config.session moment.now moment.sid (address_of tx)
        (local_sign_in tx account factor)
  local_session tx account factor (some existing) =
      if same_account account existing
      then reauthenticate config.session moment.now existing (some (address_of tx))
          (local_sign_in tx account factor)
      else new_session config.session moment.now moment.sid (address_of tx)
          (local_sign_in tx account factor)

  -- `completeLocalAuthentication`
  unfoldable pub complete_local : Transaction → Client → Account → Option Text → Handler S Answer
  complete_local tx client account factor = do
    existing ← session_of config platform moment client
    from_result (
        ok (
          complete config platform moment tx client
            (local_session tx account factor (valid_session config platform moment existing))))

  unfoldable pub confirmed : Transaction → Client → Option Account → Handler S Answer
  confirmed tx client none = from_result (ok (refuse_password tx))
  confirmed tx client (some account) =
      if not (satisfies (acr_for_local (potential account)).acr tx.request.acr_values)
      then from_result (ok (refuse_password tx))
      else if account.mfa_required
      then from_result (
          ok (
            ask_factor
              (record tx {
                local_identity =
                    some (record { id = account.id; security_version = account.security_version });
              })
              account.totp_digits false))
      else complete_local tx client account none

  abbrev pub with_password :
      LocalStore S
      → Transaction
      → Client
      → Decision
      → Option Account
      → Option Text
      → Handler S Answer
  with_password store tx client limit found password =
      if not (verify_password store found password) || not limit.allowed
      then from_result (ok (refuse_password tx))
      else confirmed tx client found

  -- The limit and the record are read side by side; neither sees what the other writes.
  unfoldable pub check_password : LocalStore S → Transaction → Client → Params → Handler S Answer
  check_password store tx client params s =
      let (limit, t) =
        check_local_auth_allowed platform.keys platform.store local.limits moment.now local.network
          (address_of tx) "password" s in
      continue_with (with_password store tx client limit (store.find (address_of tx) s))
        (single params "password") t

  abbrev pub may_enter : Transaction → Bool
  may_enter tx = not (length (address_of tx) == 0) && platform.local_allowed (address_of tx)

  abbrev pub on_store : (LocalStore S → Handler S Answer) → Option (LocalStore S) → Handler S Answer
  on_store next none = from_result (ok start_again)
  on_store next (some store) = next store

  -- `handleLocalPassword`, from the transaction that is loaded.
  unfoldable pub submit_password : Transaction → Client → Params → Handler S Answer
  submit_password tx client params =
      if is_password_stage tx.stage && may_enter tx
      then on_store (λ store. check_password store tx client params) local.store
      else from_result (ok start_again)

  -- A second factor is asked of the store only for the record that is expected.
  unfoldable pub factor_of :
      LocalStore S → Transaction → Decision → Option Account → Params → Handler S (Option Proof)
  factor_of store tx limit none params s = (ok none, s)
  factor_of store tx limit (some account) params s =
      if is_expected (some account) tx.local_identity
      then continue_with
          (λ code t.
            let (proof, u) = store.verify_second_factor account code moment.now limit.allowed t in
            (ok proof, u))
          (single params "code") s
      else (ok none, s)

  abbrev pub after_factor :
      Transaction → Client → Decision → Option Account → Option Proof → Handler S Answer
  after_factor tx client limit found none = from_result (
      ok (ask_factor tx (if is_expected found tx.local_identity then digits_of found else []) true))
  after_factor tx client limit found (some proof) =
      if limit.allowed
      then complete_local tx client proof.account (some proof.method)
      else from_result (
          ok (
            ask_factor tx (if is_expected found tx.local_identity then digits_of found else [])
              true))

  unfoldable pub check_factor : LocalStore S → Transaction → Client → Params → Handler S Answer
  check_factor store tx client params s =
      let (limit, t) =
        check_local_auth_allowed platform.keys platform.store local.limits moment.now local.network
          (address_of tx) "mfa" s in
      let found = store.find (address_of tx) s in
      let (proof, u) = factor_of store tx limit found params t in
      continue_with (after_factor tx client limit found) proof u

  -- `handleLocalMfa`, from the transaction that is loaded.
  unfoldable pub submit_factor : Transaction → Client → Params → Handler S Answer
  submit_factor tx client params =
      if is_mfa_stage tx.stage && has_snapshot tx.local_identity && may_enter tx
      then on_store (λ store. check_factor store tx client params) local.store
      else from_result (ok start_again)
