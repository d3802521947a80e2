-- ===== src/Oauth/Code/Redeem.antt =====
-- What the token endpoint may rely on when a code is redeemed.
use smart_access_gateway.Prelude.{
  ℕ, ◌+◌, ◌-◌, ◌≤◌, ◌≡◌, refl, sym, ap, ◌∙◌, ◌≢◌, Bool, true, false, Option, none, some, List, [],
  ◌∷◌, arith, Result, ok, err, ◌>>=◌, ◌>>◌, All, or_default,
}
use smart_access_gateway.Util.Bytes.{Text}
use smart_access_gateway.Util.Bytes.Compare.{timing_safe_equal_iff}
use smart_access_gateway.Util.Text.{text_eq_iff, text_Eq}
use smart_access_gateway.Errors.{Failure}
use smart_access_gateway.Crypto.Seal.{is_past}
use smart_access_gateway.Store.Calls.{Call, time, run, run_keeps}
use smart_access_gateway.Crypto.Seal.Opening.{unseal-live, unseal-same}
use smart_access_gateway.Oauth.Code.{
  code_key, code_key, or_bad_code, SealError, if_fresh, then_spend, spend, StoreError, code_purpose,
  unseal, StateStore, Codec, Aead, redeem_code, Payload, Redemption, is_pkce_text, check_verifier,
  check_pkce, migrated, check_grant,
}

-- A challenge that is present and not empty has been met by a well-formed verifier.
abbrev pub ChallengeMet : (Text → Text) → Option Text → Option Text → Type 0
ChallengeMet sha256 none verifier = Unit
ChallengeMet sha256 (some []) verifier = Unit
ChallengeMet sha256 (some (c ∷ challenge)) verifier =
    (v : Text) × (verifier ≡ some v) × (is_pkce_text v ≡ true) × (sha256 v ≡ c ∷ challenge)

check_verifier_sound :
    (sha256 : Text → Text) (challenge : Text) (verifier : Option Text)
    → check_verifier sha256 challenge verifier ≡ ok tt
    → (v : Text) × (verifier ≡ some v) × (is_pkce_text v ≡ true) × (sha256 v ≡ challenge)
unfolding check_verifier
check_verifier_sound sha256 challenge none h = cc
check_verifier_sound sha256 challenge (some []) h = cc
check_verifier_sound sha256 challenge (some (c ∷ v)) h =
    (c ∷ v, refl, ground arith, (timing_safe_equal_iff _ _).0 (ground arith))

check_pkce_sound :
    (sha256 : Text → Text) (challenge verifier : Option Text)
    → check_pkce sha256 challenge verifier ≡ ok tt
    → ChallengeMet sha256 challenge verifier
unfolding check_pkce
check_pkce_sound sha256 none verifier h = tt
check_pkce_sound sha256 (some []) verifier h = tt
check_pkce_sound sha256 (some (d ∷ ds)) verifier h = check_verifier_sound sha256 (d ∷ ds) verifier h

module _ {C : Type 0} where
  -- What a redeemed code has been checked for.
  pub record IsGranted (sha256 : Text → Text) (args : Redemption) (p : Payload C) : Type 0 where
    pub version : p.v ≡ 1
    pub client : p.client_id ≡ args.client_id
    pub redirect : args.redirect_uri ≡ some p.redirect_uri
    pub pkce : ChallengeMet sha256 p.code_challenge args.code_verifier

  unit_eq : (r : Result Failure (Unit {0})) (p q : Payload C) → (r >> ok p) ≡ ok q → r ≡ ok tt
  unit_eq (ok tt) p q h = refl
  unit_eq (err e) p q h = cc

  check_grant_sound :
      (sha256 : Text → Text) (args : Redemption) (sealed p : Payload C)
      → check_grant sha256 args sealed ≡ ok p
      → (p ≡ migrated sealed) × IsGranted sha256 args p
  unfolding check_grant
  check_grant_sound sha256 args sealed p h =
      let q = migrated sealed in
      let pkce = check_pkce sha256 q.code_challenge args.code_verifier in
      let client = text_eq_iff q.client_id args.client_id in
      let redirect = text_eq_iff q.redirect_uri (or_default args.redirect_uri []) in
      let e : p ≡ q = ground arith in
      (
        e,
        rw e (record {
          version = ground arith;
          client = ground arith;
          redirect = ground arith;
          pkce = check_pkce_sound sha256 q.code_challenge args.code_verifier (ground arith);
        }),
      )

  if_fresh-same : (q p : Payload C) (r : Result StoreError Bool) → if_fresh q r ≡ ok p → q ≡ p
  if_fresh-same q p (ok true) h = cc
  if_fresh-same q p (ok false) h = cc
  if_fresh-same q p (err e) h = cc

  spend-same :
      {S : Type 0} (now : ℕ) (store : Option (StateStore S)) (q p : Payload C) (s : S)
      → (spend now store q s).0 ≡ ok p
      → q ≡ p
  unfolding spend
  spend-same now none q p s h = cc
  spend-same now (some store) q p s h = if_fresh-same q p _ h

  redeem-then :
      {S : Type 0} (aead : Aead) (codec : Codec (Payload C)) (sha256 : Text → Text) (now : ℕ)
      (secrets : List Text) (args : Redemption) (store : Option (StateStore S)) (s : S)
      (p : Payload C)
      → (redeem_code aead codec sha256 now secrets args store s).0 ≡ ok p
      → (sealed : Payload C) × (unseal aead codec now none secrets code_purpose args.code
          ≡ ok sealed)
        × (p ≡ migrated sealed)
        × IsGranted sha256 args p
        × ((spend now store p s).0 ≡ ok p)
        × ((redeem_code aead codec sha256 now secrets args store s).1 ≡ (spend now store p s).1)
  unfolding redeem_code then_spend
  redeem-then aead codec sha256 now secrets args store s p h =
      go (unseal aead codec now none secrets code_purpose args.code) refl h
    where
      granted :
          (sealed : Payload C) (g : Result Failure (Payload C))
          → check_grant sha256 args sealed ≡ g
          → (then_spend now store g s).0 ≡ ok p
          → (p ≡ migrated sealed)
            × IsGranted sha256 args p
            × ((spend now store p s).0 ≡ ok p)
            × ((then_spend now store g s).1 ≡ (spend now store p s).1)
      granted sealed (err f) e k = cc
      granted sealed (ok q) e k =
          let (same, checked) = check_grant_sound sha256 args sealed q e in
          let q-eq-p = spend-same now store q p s k in
          rw (← q-eq-p) (same, checked, k ∙ ap ok (sym q-eq-p), refl)

      go :
          (r : Result SealError (Payload C))
          → unseal aead codec now none secrets code_purpose args.code ≡ r
          → (then_spend now store (or_bad_code r >>= check_grant sha256 args) s).0 ≡ ok p
          → (sealed : Payload C) × (unseal aead codec now none secrets code_purpose args.code
              ≡ ok sealed)
            × (p ≡ migrated sealed)
            × IsGranted sha256 args p
            × ((spend now store p s).0 ≡ ok p)
            × ((then_spend now store
                  (or_bad_code (unseal aead codec now none secrets code_purpose args.code)
                    >>= check_grant sha256 args)
                  s).1
                ≡ (spend now store p s).1)
      go (err f) e k = cc
      go (ok sealed) e k =
          let (same, checked, paid, after) =
            granted sealed (check_grant sha256 args sealed) refl k in
          (sealed, e, same, checked, paid, rw e after)

  -- A redeemed code was opened under the code purpose and had not expired, and every binding has
  -- been checked: version, client, redirect URI and, where the code has a challenge, the verifier.
  pub redeem_code_sound :
      {S : Type 0} (aead : Aead) (codec : Codec (Payload C)) (sha256 : Text → Text) (now : ℕ)
      (secrets : List Text) (args : Redemption) (store : Option (StateStore S)) (s : S)
      (p : Payload C)
      → (redeem_code aead codec sha256 now secrets args store s).0 ≡ ok p
      → (sealed : Payload C) × (unseal aead codec now none secrets code_purpose args.code
          ≡ ok sealed)
        × (p ≡ migrated sealed)
        × (is_past now (codec.exp sealed) ≡ false)
        × IsGranted sha256 args p
  redeem_code_sound aead codec sha256 now secrets args store s p h =
      let (sealed, opened, same, checked, paid, after) =
        redeem-then aead codec sha256 now secrets args store s p h in
      (
        sealed,
        opened,
        same,
        unseal-live aead codec now none secrets code_purpose args.code sealed opened,
        checked,
      )

  migrated-frame : (p : Payload C) → ((migrated p).jti ≡ p.jti) × ((migrated p).exp ≡ p.exp)
  migrated-frame p = (ground arith, ground arith)

  if_fresh-ok : (p : Payload C) (r : Result StoreError Bool) → if_fresh p r ≡ ok p → r ≡ ok true
  if_fresh-ok p (ok true) h = refl
  if_fresh-ok p (ok false) h = cc
  if_fresh-ok p (err e) h = cc

  module _ {S : Type 0} (store : StateStore S) where
    spend-claimed :
        (now t : ℕ) (p : Payload C) (s : S)
        → (spend now (some store) p s).0 ≡ ok p
        → now ≤ p.exp
        → t ≤ p.exp + 60
        → store.claimed t (spend now (some store) p s).1 (code_key p.jti) ≡ true
    unfolding spend
    spend-claimed now t p s h live le =
        store.claim_new now t (code_key p.jti) (p.exp + 60 - now) s (if_fresh-ok p _ h)
          (omega arith)

    spend-refused :
        (t : ℕ) (p : Payload C) (s : S)
        → store.claimed t s (code_key p.jti) ≡ true
        → (spend t (some store) p s).0 ≢ ok p
    unfolding spend
    spend-refused t p s held h =
        let refused = store.claim_old t (code_key p.jti) (p.exp + 60 - t) s held in
        let won = if_fresh-ok p _ h in ground arith

    -- With a state store a code is redeemed at most once. The payload's `exp` is the one that
    -- `unseal` checks. After a first success, and after calls of the store no later than the
    -- second request, a later request for the same code under the same secrets does not succeed,
    -- whatever its client, redirect URI and verifier.
    pub redeem_code_once :
        (aead : Aead) (codec : Codec (Payload C)) (sha256 : Text → Text)
        (exp_field : (p : Payload C) → codec.exp p ≡ some p.exp) (now t : ℕ) (secrets : List Text)
        (first second : Redemption) (calls : List Call) (s : S) (p q : Payload C)
        → second.code ≡ first.code
        → now ≤ t
        → All (λ c. time c ≤ t) calls
        → (redeem_code aead codec sha256 now secrets first (some store) s).0 ≡ ok p
        → (redeem_code aead codec sha256 t secrets second
            (some store)
            (run store calls (redeem_code aead codec sha256 now secrets first (some store) s).1)).0
          ≢ ok q
    redeem_code_once aead codec sha256 exp_field now t secrets first second calls s p q code le
          times won again =
        let (a, opened, from_a, checked, paid, after) =
          redeem-then aead codec sha256 now secrets first (some store) s p won in
        let (b, reopened, from_b, rechecked, repaid, reafter) =
          redeem-then aead codec sha256 t secrets second (some store) _ q again in
        let one : a ≡ b =
          unseal-same aead codec now t none secrets code_purpose first.code a b opened
            (rw code at reopened) in
        let same : p ≡ q = from_a ∙ ap migrated one ∙ sym from_b in
        let live : t ≤ p.exp =
          exp_live t b p (exp_field b) (from_a ∙ ap migrated one)
            (unseal-live aead codec t none secrets code_purpose second.code b reopened) in
        spend-refused t q _
          (rw (← same, after)
            (run_keeps store calls t (code_key p.jti) _ times
              (spend-claimed now t p s paid (omega arith) (omega arith))))
          repaid
      where
        exp_live :
            (u : ℕ) (b r : Payload C)
            → codec.exp b ≡ some b.exp
            → r ≡ migrated b
            → is_past u (codec.exp b) ≡ false
            → u ≤ r.exp
        exp_live u b r e m live = rw m (rw ((migrated-frame b).1) (ground (arith, rw e at live)))
