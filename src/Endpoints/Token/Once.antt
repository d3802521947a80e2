-- ===== src/Endpoints/Token/Once.antt =====
-- One code, one answer with tokens.
use mathlib.Core.Path.{subst}
use smart_access_gateway.Prelude.{
  ℕ, ◌≤◌, ◌≡◌, sym, ap, ◌∙◌, ◌≢◌, Option, some, List, ◌++◌, arith, Result, ok, All, All-append,
}
use smart_access_gateway.Util.Bytes.{Text}
use smart_access_gateway.Util.Http.{Params, single}
use smart_access_gateway.Errors.{Failure}
use smart_access_gateway.Store.{StateStore}
use smart_access_gateway.Store.Calls.{Call, time, run, run-append}
use smart_access_gateway.Profile.{Held}
use smart_access_gateway.Clients.{credential_part}
use smart_access_gateway.Oauth.ClientAuth.Verify.{authenticate_client}
use smart_access_gateway.Oauth.ClientAuth.Effect.{authenticate_client-Follows}
use smart_access_gateway.Oauth.Code.{Payload}
use smart_access_gateway.Oauth.Code.Redeem.{redeem_code_once}
use smart_access_gateway.Oauth.Tokens.{TokenResponse}
use smart_access_gateway.Endpoints.Token.{TokenContext, Fresh}
use smart_access_gateway.Endpoints.Token.Entitled.{read_redemption-code}
use smart_access_gateway.Endpoints.Token.Exchange.{redeem, handle_token}
use smart_access_gateway.Endpoints.Token.Issued.{handle_token-Steps}

All-append_lem :
    (t : ℕ) (xs ys : List Call)
    → All (λ c. time c ≤ t) xs
    → All (λ c. time c ≤ t) ys
    → All (λ c. time c ≤ t) (xs ++ ys)
All-append_lem t xs ys h k = All-append (λ c. time c ≤ t) xs ys h k

module _ {S : Type 0} (ctx : TokenContext) (store : StateStore S) where
  -- With a state store one code is exchanged at most once, whoever asks. The payload's `exp` is the
  -- one that `unseal` checks. After a request was answered with tokens, and after calls of the
  -- store no later than the second request, a later request with the same code is not answered
  -- with tokens, whatever its client, its credential and its other parameters.
  pub handle_token_once :
      (exp_field : (p : Payload Held) → ctx.codes_codec.exp p ≡ some p.exp) (first second : Fresh)
      (authorization authorization' : Option Text) (params params' : Params) (calls : List Call)
      (s : S) (response response' : TokenResponse)
      → single params "code" ≡ single params' "code"
      → first.now ≤ second.now
      → All (λ c. time c ≤ second.now) calls
      → (handle_token ctx (some store) first authorization params s).0 ≡ ok response
      → (handle_token ctx
          (some store)
          second
          authorization'
          params'
          (run store calls (handle_token ctx (some store) first authorization params s).1)).0
        ≢ ok response'
  unfolding redeem
  handle_token_once exp_field first second authorization authorization' params params' calls s
        response response' code le times won again =
      let a = handle_token-Steps ctx (some store) first authorization params s response won in
      let between =
        run store calls (handle_token ctx (some store) first authorization params s).1 in
      let b =
        handle_token-Steps ctx (some store) second authorization' params' between response' again in
      let entry =
        (authenticate_client ctx.services ctx.issuer first.now (credential_part a.caller.client)
          a.caller.credentials (some store) s).1 in
      let follows =
        authenticate_client-Follows ctx.services ctx.issuer second.now
          (credential_part b.caller.client) store second.now b.caller.credentials between
          (omega arith) in
      let one : b.args.code ≡ a.args.code = same_code _ _ (
        sym (read_redemption-code params' _ b.args b.asked)
        ∙ sym code
        ∙ read_redemption-code params _ a.args a.asked) in
      redeem_code_once store ctx.aead ctx.codes_codec ctx.sha256 exp_field first.now second.now
        ctx.secrets a.args b.args (calls ++ follows.calls) entry a.grant b.grant one le
        (All-append_lem second.now calls follows.calls times follows.times) a.redeemed
        (rw (run-append store calls follows.calls _) (
          subst (λ u. (redeem ctx (some store) second b.args u).0 ≡ ok b.grant)
            (follows.reached ∙ ap (λ u. run store follows.calls (run store calls u)) a.after)
            b.redeemed))
    where
      same_code :
          (x y : Text) → ◌≡◌ {A = Result Failure (Option Text)} (ok (some x)) (ok (some y)) → x ≡ y
      same_code x y e = cc
