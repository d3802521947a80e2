-- ===== src/Session/Revocation.antt =====
-- A revoked session is never read again, whatever happens in the store in between.
use smart_access_gateway.Prelude.{
  ℕ, ◌-◌, ◌≤◌, ◌<◌, ◌≡◌, refl, ◌≢◌, inl, inr, true, false, none, some, List, [], ◌∷◌, arith, Result,
  ok, err, All, ==_iff, nat_eq, string_eq, Bool-cases,
}
use smart_access_gateway.Util.Bytes.{Text}
use smart_access_gateway.Util.Text.{text_eq_iff}
use smart_access_gateway.Crypto.Seal.{SealError}
use smart_access_gateway.Store.{StateStore}
use smart_access_gateway.Store.Calls.{Call, time, run, run_keeps}
use smart_access_gateway.Session.{
  Session, revocation_key, revoke_session, is_revoked, migrated, read_session, validate_session,
}

module _ {C S : Type 0} (store : StateStore S) where
  -- A successful revocation of a live session leaves a claim that lives until its absolute cap.
  revoke-claimed :
      (now t : ℕ) (session : Session C) (s : S)
      → session.sid ≢ ""
      → now < session.abs
      → store.claimed now s (revocation_key session.sid) ≡ false
      → (revoke_session now (some store) session s).0 ≡ ok tt
      → t ≤ session.abs
      → store.claimed t (revoke_session now (some store) session s).1 (revocation_key session.sid)
        ≡ true
  unfolding revoke_session
  revoke-claimed now t session s sid live fresh done le =
      let key = revocation_key session.sid in
      let ttl = session.abs - now in
      let free = store.claim_free now key ttl s fresh in
      let won = store.claim_new now t key ttl s in ground (arith, ==_iff session.sid "")

  read-eq-none :
      (t : ℕ) (unseal : Text → Result SealError (Session C)) (raw : Text) (opened : Session C)
      (s : S)
      → unseal raw ≡ ok opened
      → (t ≤ opened.abs → store.claimed t s (revocation_key opened.sid) ≡ true)
      → (read_session t unseal (some store) (some raw) s).0 ≡ ok none
  unfolding read_session is_revoked
  read-eq-none t unseal [] opened s e held = refl
  read-eq-none t unseal (c ∷ raw) opened s e held =
      rw (e, validate_session) (ground (arith, store.has_claimed t (revocation_key opened.sid) s))

  -- Take a session with an identifier, before its absolute cap and not yet revoked, and revoke it
  -- successfully. After any calls of the store no later than the reading, a cookie that opens to a
  -- session with its identifier and cap reads as no session.
  pub revoked_unreadable :
      (now t : ℕ) (session : Session C) (s : S) (calls : List Call)
      (unseal : Text → Result SealError (Session C)) (raw : Text) (opened : Session C)
      → session.sid ≢ ""
      → now < session.abs
      → store.claimed now s (revocation_key session.sid) ≡ false
      → (revoke_session now (some store) session s).0 ≡ ok tt
      → All (λ c. time c ≤ t) calls
      → unseal raw ≡ ok opened
      → opened.sid ≡ session.sid
      → opened.abs ≡ session.abs
      → (read_session t unseal
          (some store)
          (some raw)
          (run store calls (revoke_session now (some store) session s).1)).0
        ≡ ok none
  revoked_unreadable now t session s calls unseal raw opened sid live fresh done times e same cap =
      read-eq-none t unseal raw opened _ e (λ le. rw same (
        run_keeps store calls t (revocation_key session.sid) _ times
          (revoke-claimed now t session s sid live fresh done (omega arith))))

  -- A session that is read was opened from its cookie, is within its absolute cap, names a person,
  -- and no live revocation claims it.
  pub read_session_sound :
      (t : ℕ) (unseal : Text → Result SealError (Session C)) (raw : Text) (s : S)
      (session : Session C)
      → (read_session t unseal (some store) (some raw) s).0 ≡ ok (some session)
      → (opened : Session C) × (unseal raw ≡ ok opened)
        × (session ≡ migrated opened)
        × (t ≤ opened.abs)
        × (opened.email ≢ [])
        × (opened.sid ≢ "")
        × (store.claimed t s (revocation_key opened.sid) ≡ false)
  unfolding read_session is_revoked
  read_session_sound t unseal [] s session h = cc
  read_session_sound t unseal (c ∷ raw) s session h = go (unseal (c ∷ raw)) refl h
    where
      go :
          (r : Result SealError (Session C))
          → unseal (c ∷ raw) ≡ r
          → (validate_session t (some store) r s).0 ≡ ok (some session)
          → (opened : Session C) × (unseal (c ∷ raw) ≡ ok opened)
            × (session ≡ migrated opened)
            × (t ≤ opened.abs)
            × (opened.email ≢ [])
            × (opened.sid ≢ "")
            × (store.claimed t s (revocation_key opened.sid) ≡ false)
      go (err e) p k = cc
      go (ok opened) p k =
          let key = revocation_key opened.sid in
          let found = store.has_claimed t key s in
          let text = text_eq_iff opened.email [] in
          let sid = ==_iff opened.sid "" in
          (
            opened,
            p,
            ground arith,
            ground arith,
            ground arith,
            ground arith,
            elim (Bool-cases (store.claimed t s key)) [
              | inl claimed ↦ ground arith
              | inr free ↦ free
            ],
          )
