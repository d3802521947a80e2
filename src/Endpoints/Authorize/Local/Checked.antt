-- ===== src/Endpoints/Authorize/Local/Checked.antt =====
-- What a password page that is not refused has made sure of.
use smart_access_gateway.Prelude.{
  ◌≤◌, String, ◌≡◌, refl, ap, ◌⊎◌, inl, inr, Bool, true, false, not, ◌&&◌, ◌||◌, Option, none, some,
  [], arith, Result, ok, err, leb, Bool-cases, or_default,
}
use smart_access_gateway.Util.Bytes.{Text, codes}
use smart_access_gateway.Util.Http.{Params, single}
use smart_access_gateway.Errors.{Failure}
use smart_access_gateway.Limits.{Decision, check_local_auth_allowed}
use smart_access_gateway.Clients.{Client}
use smart_access_gateway.Endpoints.Handler.{continue_with}
use smart_access_gateway.Endpoints.Authorize.{
  Transaction, Answer, password_refused, start_again, FlowConfig, Platform, Moment,
}
use smart_access_gateway.Endpoints.Authorize.Codes.{address_of}
use smart_access_gateway.Endpoints.Authorize.Local.{
  Account, LocalStore, LocalContext, or_dummy, is_enabled, hash_verdict, verify_password,
  refuse_password, confirmed, with_password, check_password, may_enter, on_store, submit_password,
  is_password_stage,
}

-- Argon2id accepted the password for the hash, or threw on the hash and accepted the password for
-- the hash that stands in.
abbrev pub IsMatch : {S : Type 0} → LocalStore S → Account → Text → Type 0
IsMatch store account password =
    (store.verify account.password password ≡ some true)
    ⊎ ((store.verify account.password password ≡ none) × (store.verify_dummy password ≡ true))

-- The password of an enabled record, of a length that is verified at all.
pub record IsVerified {S : Type 0} (store : LocalStore S) (account : Account) (password : Text)
    : Type 0 where
  pub enabled : account.disabled ≡ false
  pub fits : store.byte_length password ≤ store.max_password_bytes
  pub matches : IsMatch store account password

or_dummy-true :
    (dummy : Bool) (o : Option Bool)
    → or_dummy dummy o ≡ true
    → (o ≡ some true) ⊎ ((o ≡ none) × (dummy ≡ true))
or_dummy-true dummy none h = inr (refl, h)
or_dummy-true dummy (some good) h = inl (ap some h)

verify_password-IsVerified :
    {S : Type 0} (store : LocalStore S) (account : Account) (password : Option Text)
    → verify_password store (some account) password ≡ true
    → IsVerified store account (or_default password [])
unfolding verify_password
verify_password-IsVerified store account password h =
    let value = or_default password [] in
    elim (Bool-cases (leb (store.byte_length value) store.max_password_bytes)) [
      | inr long ↦ absurd (
          too_long (hash_verdict store false (some account) (codes "password-too-long"))
            (rw long at h))
      | inl short ↦ elim (Bool-cases account.disabled) [
        | inl off ↦ absurd (unusable _ (rw (short, off) at h))
        | inr on ↦ record {
          enabled = on;
          fits = ground arith;
          matches =
              or_dummy-true (store.verify_dummy value) (store.verify account.password value)
                (first _ (rw (short, on) at h));
        }
      ]
    ]
  where
    too_long : (a : Bool) → (a && false && is_enabled (some account)) ≡ true → ⊥
    too_long true k = cc
    too_long false k = cc

    unusable : (a : Bool) → (a && true && false) ≡ true → ⊥
    unusable true k = cc
    unusable false k = cc

    first : (a : Bool) → (a && true && true) ≡ true → a ≡ true
    first a k = ground arith

-- An answer to a password that is not turned away.
abbrev pub passes : Answer → Bool
passes (password_refused tx) = false
passes start_again = false
passes other = true

refused-passes : (tx : Transaction) → passes (refuse_password tx) ≡ false
unfolding refuse_password
refused-passes tx = refl

module _ {S : Type 0} (config : FlowConfig) (platform : Platform S) (moment : Moment)
    (local : LocalContext S) where
  abbrev pub allowance : Transaction → String → S → Decision × S
  allowance tx factor s =
      check_local_auth_allowed platform.keys platform.store local.limits moment.now local.network
        (address_of tx) factor s

  -- The password that the request carries is that of the record which stands under the address of
  -- the transaction, within the limit on attempts.
  pub record IsChecked (tx : Transaction) (params : Params) (s : S) (account : Account)
      : Type 0 where
    pub store : LocalStore S
    pub password : Option Text
    pub configured : local.store ≡ some store
    pub allowed : platform.local_allowed (address_of tx) ≡ true
    pub found : store.find (address_of tx) s ≡ some account
    pub within : (allowance tx "password" s).0.allowed ≡ true
    pub presented : single params "password" ≡ ok password
    pub verified : IsVerified store account (or_default password [])

  abbrev pub Confirms : Transaction → Client → Account → Answer → Type 0
  Confirms tx client account answer =
      (t : S) × ((confirmed config platform moment local tx client (some account) t).0 ≡ ok answer)

  turned_away :
      (answer : Answer) (tx : Transaction)
      → passes answer ≡ true
      → ◌≡◌ {A = Result Failure Answer} (ok (refuse_password tx)) (ok answer)
      → ⊥
  unfolding refuse_password
  turned_away (password_refused next) tx h e = cc
  turned_away other tx h e = absurd cc

  with_password-Confirms :
      (store : LocalStore S) (tx : Transaction) (client : Client) (limit : Decision)
      (found : Option Account) (password : Option Text) (t : S) (answer : Answer)
      → passes answer ≡ true
      → (with_password config platform moment local store tx client limit found password t).0
        ≡ ok answer
      → (account : Account) × (found ≡ some account)
        × (limit.allowed ≡ true)
        × (verify_password store found password ≡ true)
        × Confirms tx client account answer
  unfolding confirmed
  with_password-Confirms store tx client limit found password t answer pass h =
      elim (Bool-cases (not (verify_password store found password) || not limit.allowed)) [
        | inl bad ↦ absurd (turned_away answer tx pass (rw bad at h))
        | inr good ↦ go found (ground arith) (ground arith) (rw good at h)
      ]
    where
      go :
          (o : Option Account)
          → limit.allowed ≡ true
          → verify_password store o password ≡ true
          → (confirmed config platform moment local tx client o t).0 ≡ ok answer
          → (account : Account) × (o ≡ some account)
            × (limit.allowed ≡ true)
            × (verify_password store o password ≡ true)
            × Confirms tx client account answer
      go none within verified k = absurd (turned_away answer tx pass k)
      go (some account) within verified k = (account, refl, within, verified, (t, k))

  check_password-IsChecked :
      (store : LocalStore S) (tx : Transaction) (client : Client) (params : Params) (s : S)
      (answer : Answer)
      → local.store ≡ some store
      → platform.local_allowed (address_of tx) ≡ true
      → passes answer ≡ true
      → (check_password config platform moment local store tx client params s).0 ≡ ok answer
      → (account : Account) × IsChecked tx params s account × Confirms tx client account answer
  unfolding check_password
  check_password-IsChecked store tx client params s answer configured allowed pass h =
      go (single params "password") refl h
    where
      go :
          (r : Result Failure (Option Text))
          → single params "password" ≡ r
          → (continue_with
              (with_password config platform moment local store tx client
                (allowance tx "password" s).0
                (store.find (address_of tx) s))
              r
              (allowance tx "password" s).1).0
            ≡ ok answer
          → (account : Account) × IsChecked tx params s account × Confirms tx client account answer
      go (err e) read k = absurd cc
      go (ok password) read k =
          let (account, there, within, verified, confirms) =
            with_password-Confirms store tx client (allowance tx "password" s).0
              (store.find (address_of tx) s) password (allowance tx "password" s).1 answer pass k in
          (
            account,
            record {
              store = store;
              password = password;
              configured = configured;
              allowed = allowed;
              found = there;
              within = within;
              presented = read;
              verified = verify_password-IsVerified store account password (rw there at verified);
            },
            confirms,
          )

  pub submit_password-IsChecked :
      (tx : Transaction) (client : Client) (params : Params) (s : S) (answer : Answer)
      → passes answer ≡ true
      → (submit_password config platform moment local tx client params s).0 ≡ ok answer
      → (account : Account) × IsChecked tx params s account × Confirms tx client account answer
  unfolding submit_password
  submit_password-IsChecked tx client params s answer pass h =
      elim (Bool-cases (is_password_stage tx.stage && may_enter config platform moment local tx)) [
        | inr out ↦ absurd (again answer pass (rw out at h))
        | inl entered ↦ go local.store refl (rw entered at h) (ground arith)
      ]
    where
      again :
          (answer : Answer)
          → passes answer ≡ true
          → ◌≡◌ {A = Result Failure Answer} (ok start_again) (ok answer)
          → ⊥
      again start_again k e = cc
      again other k e = absurd cc

      go :
          (store : Option (LocalStore S))
          → local.store ≡ store
          → (on_store config platform moment local
              (λ store. check_password config platform moment local store tx client params)
              store
              s).0
            ≡ ok answer
          → platform.local_allowed (address_of tx) ≡ true
          → (account : Account) × IsChecked tx params s account × Confirms tx client account answer
      go none e k may = absurd (again answer pass k)
      go (some store) e k may =
          check_password-IsChecked store tx client params s answer e may pass k
