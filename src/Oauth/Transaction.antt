-- ===== src/Oauth/Transaction.antt =====
-- src/oauth/transaction.js: the in-flight authorisation request. `C` is the type of a local
-- identity's snapshot, which the transaction only carries.
use smart_access_gateway.Prelude.{
  ℕ, ◌+◌, String, Bool, not, ◌||◌, Option, none, some, List, [], Result, ok, err, length, ltb, ◌==◌,
  nat_eq, string_eq, if◌then◌else◌, or_default,
}
use smart_access_gateway.Util.Bytes.{Text}
use smart_access_gateway.Crypto.Seal.{SealError}

pub data Stage : Type 0 where
  email choose otp local_password local_mfa continue : Stage

pub record OtpState : Type 0 where
  pub digest : Text
  pub exp : ℕ
  pub attempts : ℕ
  pub resends : ℕ
  pub iat : ℕ

-- The fields that come from the validated request and never change.
pub record Request : Type 0 where
  pub client_id : Text
  pub redirect_uri : Text
  pub state : Option Text
  pub nonce : Option Text
  pub scope : List Text
  pub response_type : Text
  pub response_mode : Text
  pub code_challenge : Option Text
  pub code_challenge_method : Option Text
  pub acr_values : List String
  pub prompt : List Text
  pub max_age : Option ℕ
  pub login_hint : Option Text
  pub id_token_alg : Option Text
  pub resource : List Text

pub record Tx (C : Type 0) : Type 0 where
  pub v : ℕ
  pub id : String
  pub stage : Stage
  pub request : Request
  pub iat : ℕ
  pub exp : ℕ
  pub email : Option Text
  pub upstream : Option Text
  pub otp : Option OtpState
  pub local_identity : Option C
  pub remember_me : Option Bool

abbrev pub one_attempt : OtpState → OtpState
one_attempt o = record o { attempts = o.attempts + 1 }

module _ {C : Type 0} where
  -- `newTransaction`: `ttl` is `config.tokens.transactionTtlSeconds`.
  unfoldable pub new_transaction : ℕ → ℕ → String → Request → Tx C
  new_transaction now ttl id request = record {
    v = 1;
    id = id;
    stage = email;
    request = request;
    iat = now;
    exp = now + ttl;
    email = none;
    upstream = none;
    otp = none;
    local_identity = none;
    remember_me = none;
  }

  -- The checks of `openTransaction` and `openUpstreamState` after `unseal`; `none` stands for the
  -- `SealError` of an unrecognised token.
  unfoldable pub open_transaction : Result SealError (Tx C) → Option (Tx C)
  open_transaction (err e) = none
  open_transaction (ok tx) =
      if not (tx.v == 1) || length tx.request.client_id == 0 then none else some tx

  unfoldable pub open_upstream_state : Result SealError (Tx C) → Option (Tx C)
  open_upstream_state (err e) = none
  open_upstream_state (ok tx) =
      if not (tx.v == 1) || length (or_default tx.upstream []) == 0 then none else some tx

  unfoldable pub with_otp : ℕ → Tx C → Text → ℕ → ℕ → Tx C
  with_otp now tx digest expires_at resends = record tx {
    stage = otp;
    otp =
        some (record {
          digest = digest;
          exp = expires_at;
          attempts = 0;
          resends = resends;
          iat = now;
        });
  }

  -- `withOtpAttempt`, which is called only while a code is outstanding.
  unfoldable pub with_otp_attempt : Tx C → Tx C
  with_otp_attempt tx = elim tx.otp [
    | none ↦ tx
    | some o ↦ record tx { otp = some (one_attempt o) }
  ]

  unfoldable pub without_otp : Tx C → Tx C
  without_otp tx = record tx {
    stage = email;
    otp = none;
    email = none;
    upstream = none;
    local_identity = none;
  }

  unfoldable pub without_attempt : Tx C → Tx C
  without_attempt tx = record tx { otp = none; upstream = none; local_identity = none }

  unfoldable pub expired : ℕ → Tx C → Bool
  expired now tx = ltb tx.exp now
