-- ===== src/Endpoints/Authorize/Local/Confirmed.antt =====
-- What a right password leads to.
use smart_access_gateway.Prelude.{
  ℕ, ◌≡◌, refl, inl, inr, true, false, Option, none, some, List, Result, ok, err, Bool-cases,
}
use smart_access_gateway.Util.Http.{Params}
use smart_access_gateway.Errors.{Failure}
use smart_access_gateway.Acr.{satisfies, local_password_acr, local_mfa_acr, acr_for_local}
use smart_access_gateway.Clients.{Client}
use smart_access_gateway.Oauth.Transaction.{local_mfa}
use smart_access_gateway.Endpoints.Authorize.{
  Transaction, Answer, second_factor_page, completed, Completion, FlowConfig, Platform, Moment,
}
use smart_access_gateway.Endpoints.Authorize.Local.{
  Account, LocalContext, refuse_password, ask_factor, potential, confirmed, submit_password,
}
use smart_access_gateway.Endpoints.Authorize.Local.Checked.{
  IsChecked, Confirms, submit_password-IsChecked,
}
use smart_access_gateway.Session.{Session}
use smart_access_gateway.Profile.{Held}
use smart_access_gateway.Endpoints.Handler.{continue_with, from_result}
use smart_access_gateway.Endpoints.Authorize.Complete.{session_of, valid_session, complete}
use smart_access_gateway.Endpoints.Authorize.Local.{complete_local, local_session}

-- The transaction of a page that asks for a second factor.
abbrev pub asking : Transaction → Account → Transaction
asking tx account = record tx {
  stage = local_mfa;
  local_identity = some (record { id = account.id; security_version = account.security_version });
}

module _ {S : Type 0} (config : FlowConfig) (platform : Platform S) (moment : Moment)
    (local : LocalContext S) where
  confirmed_completed :
      (tx : Transaction) (client : Client) (account : Account) (c : Completion)
      → Confirms config platform moment local tx client account (completed c)
      → (account.mfa_required ≡ false) × (satisfies local_password_acr tx.request.acr_values ≡ true)
  unfolding confirmed refuse_password ask_factor
  confirmed_completed tx client account c (t, h) =
      elim (Bool-cases (satisfies (acr_for_local (potential account)).acr tx.request.acr_values)) [
        | inr weak ↦ absurd (refused (rw weak at h))
        | inl strong ↦ elim (Bool-cases account.mfa_required) [
          | inl second ↦ absurd (asked _ _ (rw (strong, second) at h))
          | inr alone ↦ (alone, rw alone at strong)
        ]
      ]
    where
      refused : ◌≡◌ {A = Result Failure Answer} (ok (refuse_password tx)) (ok (completed c)) → ⊥
      refused e = cc

      asked :
          (next : Transaction) (digits : List ℕ)
          → ◌≡◌ {A = Result Failure Answer}
              (ok (second_factor_page next digits false))
              (ok (completed c))
          → ⊥
      asked next digits e = cc

  complete_local-asked :
      (tx : Transaction) (client : Client) (account : Account) (next : Transaction)
      (digits : List ℕ) (t : S)
      → (complete_local config platform moment local tx client account none t).0
        ≡ ok (second_factor_page next digits false)
      → ⊥
  unfolding complete_local complete
  complete_local-asked tx client account next digits t h =
      go (session_of config platform moment client t).0 h
    where
      go :
          (r : Result Failure (Option (Session Held)))
          → (continue_with
              (λ existing. from_result {S = S} (
                ok (
                  complete config platform moment tx client (
                    local_session config platform moment local tx account none
                      (valid_session config platform moment existing)))))
              r
              (session_of config platform moment client t).1).0
            ≡ ok (second_factor_page next digits false)
          → ⊥
      go (err e) k = cc
      go (ok held) k = cc

  pub confirmed_asked :
      (tx : Transaction) (client : Client) (account : Account) (next : Transaction)
      (digits : List ℕ)
      → Confirms config platform moment local tx client account
          (second_factor_page next digits false)
      → (account.mfa_required ≡ true)
        × (satisfies local_mfa_acr tx.request.acr_values ≡ true)
        × (next ≡ asking tx account)
  unfolding confirmed refuse_password ask_factor
  confirmed_asked tx client account next digits (t, h) =
      elim (Bool-cases (satisfies (acr_for_local (potential account)).acr tx.request.acr_values)) [
        | inr weak ↦ absurd (refused (rw weak at h))
        | inl strong ↦ elim (Bool-cases account.mfa_required) [
          | inl second ↦ (second, rw second at strong, same _ _ (rw (strong, second) at h))
          | inr alone ↦
              absurd (complete_local-asked tx client _ next digits t (rw (strong, alone) at h))
        ]
      ]
    where
      refused :
          ◌≡◌ {A = Result Failure Answer}
            (ok (refuse_password tx))
            (ok (second_factor_page next digits false))
          → ⊥
      refused e = cc

      same :
          (mine : Transaction) (held : List ℕ)
          → ◌≡◌ {A = Result Failure Answer}
              (ok (second_factor_page mine held false))
              (ok (second_factor_page next digits false))
          → next ≡ mine
      same mine held e = cc

  -- A local sign-in that is completed on the password page had, within the limit on attempts and
  -- for an address whose domain has local accounts, the password of the record that stands under
  -- the address. The record is enabled and requires no second factor, and a password meets the
  -- request's acr_values. The password is one whose length is verified and that Argon2id accepts
  -- for the record's hash, or, if Argon2id throws on that hash, for the hash that stands in.
  pub submit_password_sound :
      (tx : Transaction) (client : Client) (params : Params) (s : S) (c : Completion)
      → (submit_password config platform moment local tx client params s).0 ≡ ok (completed c)
      → (account : Account) × IsChecked config platform moment local tx params s account
        × (account.mfa_required ≡ false)
        × (satisfies local_password_acr tx.request.acr_values ≡ true)
  submit_password_sound tx client params s c h =
      let (account, checked, confirms) =
        submit_password-IsChecked config platform moment local tx client params s (completed c) refl
          h in
      let (alone, strong) = confirmed_completed tx client account c confirms in
      (account, checked, alone, strong)
