-- ===== src/Endpoints/Authorize/Local/Pages.antt =====
-- The answers of the local pages, and the transaction that their pages carry.
use smart_access_gateway.Prelude.{not, ◌&&◌, ◌||◌, Option, none, some, Result, ok}
use smart_access_gateway.Util.Bytes.{Text}
use smart_access_gateway.Util.Text.{text_Eq}
use smart_access_gateway.Util.Http.{Params, single}
use smart_access_gateway.Errors.{Failure}
use smart_access_gateway.Limits.{Decision, check_local_auth_allowed}
use smart_access_gateway.Acr.{acr_for_local, satisfies}
use smart_access_gateway.Clients.{Client}
use smart_access_gateway.Endpoints.Handler.{from_result}
use smart_access_gateway.Endpoints.Authorize.{
  Transaction, Answer, start_again, FlowConfig, Platform, Moment,
}
use smart_access_gateway.Endpoints.Authorize.Complete.{session_of, valid_session, complete}
use smart_access_gateway.Endpoints.Authorize.Codes.{address_of}
use smart_access_gateway.Endpoints.Authorize.Local.{
  Account, Proof, LocalStore, LocalContext, refuse_password, ask_factor, potential, complete_local,
  local_session, confirmed, with_password, verify_password, check_password, on_store, may_enter,
  is_password_stage, submit_password, factor_of, after_factor, check_factor, is_mfa_stage,
  has_snapshot, submit_factor,
}
use smart_access_gateway.Endpoints.Authorize.Steps.{no_stage}
use smart_access_gateway.Endpoints.Authorize.Demands.{Ends, Ends-continue, Ends-if, IsHonest}

module _ {S : Type 0} (config : FlowConfig) (platform : Platform S) (moment : Moment)
    (local : LocalContext S) where
  complete_local-Ends :
      (tx : Transaction) (client : Client) (account : Account) (factor : Option Text) (s : S)
      → Ends
          (IsHonest config platform)
          (complete_local config platform moment local tx client account factor s).0
  unfolding complete_local complete
  complete_local-Ends tx client account factor s =
      Ends-continue (IsHonest config platform)
        (λ existing. from_result (
          ok (
            complete config platform moment tx client (
              local_session config platform moment local tx account factor
                (valid_session config platform moment existing)))))
        (session_of config platform moment client s).0
        (session_of config platform moment client s).1 (λ existing t. tt)

  confirmed-Ends :
      (tx : Transaction) (client : Client) (found : Option Account) (s : S)
      → Ends (IsHonest config platform) (confirmed config platform moment local tx client found s).0
  unfolding confirmed refuse_password ask_factor
  confirmed-Ends tx client none s = λ stage. absurd (no_stage stage)
  confirmed-Ends tx client (some account) s =
      Ends-if (IsHonest config platform)
        (not (satisfies (acr_for_local (potential account)).acr tx.request.acr_values)) _ _ s
        (λ weak stage. absurd (no_stage stage))
        (λ strong.
          Ends-if (IsHonest config platform) account.mfa_required _ _ s
            (λ second stage. absurd (no_stage stage))
            (λ alone. complete_local-Ends tx client account none s))

  with_password-Ends :
      (store : LocalStore S) (tx : Transaction) (client : Client) (limit : Decision)
      (found : Option Account) (password : Option Text) (s : S)
      → Ends
          (IsHonest config platform)
          (with_password config platform moment local store tx client limit found password s).0
  unfolding refuse_password
  with_password-Ends store tx client limit found password s =
      Ends-if (IsHonest config platform)
        (not (verify_password store found password) || not limit.allowed)
        (from_result (ok (refuse_password tx)))
        (confirmed config platform moment local tx client found) s
        (λ bad stage. absurd (no_stage stage)) (λ good. confirmed-Ends tx client found s)

  check_password-Ends :
      (store : LocalStore S) (tx : Transaction) (client : Client) (params : Params) (s : S)
      → Ends
          (IsHonest config platform)
          (check_password config platform moment local store tx client params s).0
  unfolding check_password
  check_password-Ends store tx client params s =
      let limited =
        check_local_auth_allowed platform.keys platform.store local.limits moment.now local.network
          (address_of tx) "password" s in
      Ends-continue (IsHonest config platform)
        (with_password config platform moment local store tx client limited.0
          (store.find (address_of tx) s))
        (single params "password") limited.1
        (λ password t.
          with_password-Ends store tx client limited.0 (store.find (address_of tx) s) password t)

  on_store-Ends :
      (next : LocalStore S → S → Result Failure Answer × S) (store : Option (LocalStore S)) (s : S)
      → ((l : LocalStore S) → Ends (IsHonest config platform) (next l s).0)
      → Ends (IsHonest config platform) (on_store config platform moment local next store s).0
  on_store-Ends next none s h = tt
  on_store-Ends next (some l) s h = h l

  pub submit_password-Ends :
      (tx : Transaction) (client : Client) (params : Params) (s : S)
      → Ends
          (IsHonest config platform)
          (submit_password config platform moment local tx client params s).0
  unfolding submit_password
  submit_password-Ends tx client params s =
      Ends-if (IsHonest config platform)
        (is_password_stage tx.stage && may_enter config platform moment local tx)
        (on_store config platform moment local
          (λ store. check_password config platform moment local store tx client params) local.store)
        (from_result (ok start_again)) s
        (λ entered.
          on_store-Ends
            (λ store. check_password config platform moment local store tx client params)
            local.store s (λ l. check_password-Ends l tx client params s))
        (λ out. tt)

  after_factor-Ends :
      (tx : Transaction) (client : Client) (limit : Decision) (found : Option Account)
      (proof : Option Proof) (s : S)
      → Ends
          (IsHonest config platform)
          (after_factor config platform moment local tx client limit found proof s).0
  unfolding ask_factor
  after_factor-Ends tx client limit found none s = λ stage. absurd (no_stage stage)
  after_factor-Ends tx client limit found (some proof) s =
      Ends-if (IsHonest config platform) limit.allowed _ _ s
        (λ allows. complete_local-Ends tx client proof.account (some proof.method) s)
        (λ denies stage. absurd (no_stage stage))

  check_factor-Ends :
      (store : LocalStore S) (tx : Transaction) (client : Client) (params : Params) (s : S)
      → Ends
          (IsHonest config platform)
          (check_factor config platform moment local store tx client params s).0
  unfolding check_factor
  check_factor-Ends store tx client params s =
      let limited =
        check_local_auth_allowed platform.keys platform.store local.limits moment.now local.network
          (address_of tx) "mfa" s in
      let found = store.find (address_of tx) s in
      let tried =
        factor_of config platform moment local store tx limited.0 found params limited.1 in
      Ends-continue (IsHonest config platform)
        (after_factor config platform moment local tx client limited.0 found) tried.0 tried.1
        (λ proof t. after_factor-Ends tx client limited.0 found proof t)

  pub submit_factor-Ends :
      (tx : Transaction) (client : Client) (params : Params) (s : S)
      → Ends
          (IsHonest config platform)
          (submit_factor config platform moment local tx client params s).0
  unfolding submit_factor
  submit_factor-Ends tx client params s =
      Ends-if (IsHonest config platform)
        (is_mfa_stage tx.stage
          && has_snapshot tx.local_identity
          && may_enter config platform moment local tx)
        (on_store config platform moment local
          (λ store. check_factor config platform moment local store tx client params) local.store)
        (from_result (ok start_again)) s
        (λ entered.
          on_store-Ends (λ store. check_factor config platform moment local store tx client params)
            local.store s (λ l. check_factor-Ends l tx client params s))
        (λ out. tt)
