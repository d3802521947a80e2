-- ===== src/Endpoints/Authorize/Local/Factor.antt =====
-- What a completed second factor has proved.
use smart_access_gateway.Prelude.{
  ℕ, ◌≡◌, refl, ap, ◌∙◌, inl, inr, true, false, ◌&&◌, Option, none, some, List, arith, Result, ok,
  err, ==_iff, nat_eq, string_eq, Bool-cases,
}
use smart_access_gateway.Util.Bytes.{Text}
use smart_access_gateway.Util.Http.{Params, single}
use smart_access_gateway.Errors.{Failure}
use smart_access_gateway.Limits.{Decision}
use smart_access_gateway.Clients.{Client}
use smart_access_gateway.Endpoints.Handler.{continue_with}
use smart_access_gateway.Endpoints.Authorize.{
  Transaction, Answer, second_factor_page, completed, start_again, Completion, FlowConfig, Platform,
  Moment, Snapshot,
}
use smart_access_gateway.Endpoints.Authorize.Codes.{address_of}
use smart_access_gateway.Endpoints.Authorize.Local.{
  Account, Proof, LocalStore, LocalContext, ask_factor, may_enter, on_store, is_expected, factor_of,
  after_factor, check_factor, submit_factor, is_mfa_stage, has_snapshot,
}
use smart_access_gateway.Endpoints.Authorize.Local.Checked.{
  allowance, IsChecked, submit_password-IsChecked,
}
use smart_access_gateway.Endpoints.Authorize.Local.Confirmed.{asking, confirmed_asked}
use smart_access_gateway.Endpoints.Authorize.Local.{submit_password}
use smart_access_gateway.Acr.{satisfies, local_mfa_acr}

-- The account is enabled, and still the one whose password was checked.
pub record IsUnchanged (account : Account) (held : Option Snapshot) : Type 0 where
  pub snapshot : Snapshot
  pub carried : held ≡ some snapshot
  pub enabled : account.disabled ≡ false
  pub same_id : account.id ≡ snapshot.id
  pub same_version : account.security_version ≡ snapshot.security_version

is_expected-IsUnchanged :
    (account : Account) (held : Option Snapshot)
    → is_expected (some account) held ≡ true
    → IsUnchanged account held
is_expected-IsUnchanged account none h = cc
is_expected-IsUnchanged account (some snapshot) h = record {
  snapshot = snapshot;
  carried = refl;
  enabled = ground arith;
  same_id = ground (arith, ==_iff account.id snapshot.id);
  same_version = ground (arith, ==_iff account.security_version snapshot.security_version);
}

module _ {S : Type 0} (config : FlowConfig) (platform : Platform S) (moment : Moment)
    (local : LocalContext S) where
  -- The check of second factors, asked to consume what it accepts, accepted the code within the
  -- limit, for the unchanged account.
  pub record IsProved (tx : Transaction) (params : Params) (s : S) : Type 0 where
    pub store : LocalStore S
    pub account : Account
    pub code : Option Text
    pub proof : Proof
    pub configured : local.store ≡ some store
    pub allowed : platform.local_allowed (address_of tx) ≡ true
    pub found : store.find (address_of tx) s ≡ some account
    pub unchanged : IsUnchanged account tx.local_identity
    pub within : (allowance config platform moment local tx "mfa" s).0.allowed ≡ true
    pub presented : single params "code" ≡ ok code
    pub accepted :
        (store.verify_second_factor account code moment.now true
          (allowance config platform moment local tx "mfa" s).1).0
        ≡ some proof

  after_factor_sound :
      (tx : Transaction) (client : Client) (limit : Decision) (found : Option Account)
      (proof : Option Proof) (u : S) (c : Completion)
      → (after_factor config platform moment local tx client limit found proof u).0
        ≡ ok (completed c)
      → (given : Proof) × (proof ≡ some given) × (limit.allowed ≡ true)
  unfolding ask_factor
  after_factor_sound tx client limit found none u c h = cc
  after_factor_sound tx client limit found (some proof) u c h = elim (Bool-cases limit.allowed) [
    | inl may ↦ (proof, refl, may)
    | inr denied ↦ absurd (asked _ _ (rw denied at h))
  ]
    where
      asked :
          (next : Transaction) (digits : List ℕ)
          → ◌≡◌ {A = Result Failure Answer}
              (ok (second_factor_page next digits true))
              (ok (completed c))
          → ⊥
      asked next digits e = cc

  factor_of_sound :
      (store : LocalStore S) (tx : Transaction) (limit : Decision) (found : Option Account)
      (params : Params) (t : S) (proof : Proof)
      → (factor_of config platform moment local store tx limit found params t).0 ≡ ok (some proof)
      → (account : Account) × (code : Option Text) × (found ≡ some account)
        × (is_expected (some account) tx.local_identity ≡ true)
        × (single params "code" ≡ ok code)
        × ((store.verify_second_factor account code moment.now limit.allowed t).0 ≡ some proof)
  unfolding factor_of
  factor_of_sound store tx limit none params t proof h = cc
  factor_of_sound store tx limit (some account) params t proof h =
      elim (Bool-cases (is_expected (some account) tx.local_identity)) [
        | inr other ↦ absurd (nothing (rw other at h))
        | inl same ↦ go (single params "code") refl same (rw same at h)
      ]
    where
      nothing : ◌≡◌ {A = Result Failure (Option Proof)} (ok none) (ok (some proof)) → ⊥
      nothing e = cc

      inner :
          (o : Option Proof)
          → ◌≡◌ {A = Result Failure (Option Proof)} (ok o) (ok (some proof))
          → o ≡ some proof
      inner o e = cc

      go :
          (r : Result Failure (Option Text))
          → single params "code" ≡ r
          → is_expected (some account) tx.local_identity ≡ true
          → (continue_with
              (λ code u.
                let (p, v) = store.verify_second_factor account code moment.now limit.allowed u in
                (ok p, v))
              r
              t).0
            ≡ ok (some proof)
          → (held : Account) × (code : Option Text) × (some account ≡ some held)
            × (is_expected (some held) tx.local_identity ≡ true)
            × (single params "code" ≡ ok code)
            × ((store.verify_second_factor held code moment.now limit.allowed t).0 ≡ some proof)
      go (err e) read same k = cc
      go (ok code) read same k = (account, code, refl, same, read, inner _ k)

  check_factor_sound :
      (store : LocalStore S) (tx : Transaction) (client : Client) (params : Params) (s : S)
      (c : Completion)
      → local.store ≡ some store
      → platform.local_allowed (address_of tx) ≡ true
      → (check_factor config platform moment local store tx client params s).0 ≡ ok (completed c)
      → IsProved tx params s
  unfolding check_factor
  check_factor_sound store tx client params s c configured allowed h =
      go
        (factor_of config platform moment local store tx
          (allowance config platform moment local tx "mfa" s).0 (store.find (address_of tx) s)
          params (allowance config platform moment local tx "mfa" s).1).0
        refl h
    where
      go :
          (r : Result Failure (Option Proof))
          → (factor_of config platform moment local store tx
              (allowance config platform moment local tx "mfa" s).0
              (store.find (address_of tx) s)
              params
              (allowance config platform moment local tx "mfa" s).1).0
            ≡ r
          → (continue_with
              (after_factor config platform moment local tx client
                (allowance config platform moment local tx "mfa" s).0
                (store.find (address_of tx) s))
              r
              (factor_of config platform moment local store tx
                (allowance config platform moment local tx "mfa" s).0
                (store.find (address_of tx) s)
                params
                (allowance config platform moment local tx "mfa" s).1).1).0
            ≡ ok (completed c)
          → IsProved tx params s
      go (err e) read k = cc
      go (ok proof) read k =
          let (given, some_given, within) =
            after_factor_sound tx client (allowance config platform moment local tx "mfa" s).0
              (store.find (address_of tx) s) proof _ c k in
          let (account, code, found, same, presented, accepted) =
            factor_of_sound store tx (allowance config platform moment local tx "mfa" s).0
              (store.find (address_of tx) s) params
              (allowance config platform moment local tx "mfa" s).1 given
              (read ∙ ap ok some_given) in
          record {
            store = store;
            account = account;
            code = code;
            proof = given;
            configured = configured;
            allowed = allowed;
            found = found;
            unchanged = is_expected-IsUnchanged account tx.local_identity same;
            within = within;
            presented = presented;
            accepted = rw within at accepted;
          }

  submit_factor-IsProved :
      (tx : Transaction) (client : Client) (params : Params) (s : S) (c : Completion)
      → (submit_factor config platform moment local tx client params s).0 ≡ ok (completed c)
      → IsProved tx params s
  unfolding submit_factor
  submit_factor-IsProved tx client params s c h =
      elim (Bool-cases (
        is_mfa_stage tx.stage
        && has_snapshot tx.local_identity
        && may_enter config platform moment local tx)) [
          | inr out ↦ absurd (again (rw out at h))
          | inl entered ↦ go local.store refl (rw entered at h) (ground arith)
        ]
    where
      again : ◌≡◌ {A = Result Failure Answer} (ok start_again) (ok (completed c)) → ⊥
      again e = cc

      go :
          (store : Option (LocalStore S))
          → local.store ≡ store
          → (on_store config platform moment local
              (λ store. check_factor config platform moment local store tx client params)
              store
              s).0
            ≡ ok (completed c)
          → platform.local_allowed (address_of tx) ≡ true
          → IsProved tx params s
      go none e k may = absurd (again k)
      go (some store) e k may = check_factor_sound store tx client params s c e may k

module _ {S : Type 0} (config : FlowConfig) (platform : Platform S) (moment later : Moment)
    (local : LocalContext S) where
  -- Take a submission of the password page that is answered by the page of the second factor, and a
  -- submission of that page's transaction, at any time and in any state, that completes the sign-in.
  -- Then the first had, within the limit on attempts, the password of the record under the address,
  -- which requires a second factor, and both factors together meet the request's acr_values. At the
  -- second, within its own limit, the store's check of second factors, asked to consume what it
  -- accepts, accepted the code for the record that stands under the address then: it is enabled and
  -- has the identifier and the security version of the one whose password was checked.
  pub submit_factor_sound :
      (tx next : Transaction) (client client' : Client) (params params' : Params) (s u : S)
      (digits : List ℕ) (c : Completion)
      → (submit_password config platform moment local tx client params s).0
        ≡ ok (second_factor_page next digits false)
      → (submit_factor config platform later local next client' params' u).0 ≡ ok (completed c)
      → (account : Account) × IsChecked config platform moment local tx params s account
        × (account.mfa_required ≡ true)
        × (satisfies local_mfa_acr tx.request.acr_values ≡ true)
        × (next ≡ asking tx account)
        × IsProved config platform later local next params' u
  submit_factor_sound tx next client client' params params' s u digits c first second =
      let (account, checked, confirms) =
        submit_password-IsChecked config platform moment local tx client params s
          (second_factor_page next digits false) refl first in
      let (required, strong, same) =
        confirmed_asked config platform moment local tx client account next digits confirms in
      (
        account,
        checked,
        required,
        strong,
        same,
        submit_factor-IsProved config platform later local next client' params' u c second,
      )
