-- ===== src/Session/Lifetime.antt =====
-- The two lifetimes of a session: whatever is done with it, it is never fresh past its absolute cap.
use smart_access_gateway.Prelude.{
  ℕ, ◌+◌, ◌≤◌, String, ◌≡◌, refl, ◌∙◌, ◌↔◌, true, Option, none, some, List, [], ◌∷◌, arith,
}
use smart_access_gateway.Util.Bytes.{Text}
use smart_access_gateway.Session.{
  SessionConfig, Session, Authentication, new_session, reauthenticate, touch, session_is_fresh,
}

-- What an endpoint may do with a session, at a time.
pub data Use (C : Type 0) : Type 0 where
  touched : ℕ → Use C
  reauthenticated : ℕ → Option Text → Authentication C → Use C

module _ {C : Type 0} where
  unfoldable pub apply : SessionConfig → Use C → Session C → Session C
  apply config (touched now) session = touch config now session
  apply config (reauthenticated now email args) session =
      reauthenticate config now session email args

  unfoldable pub apply_all : SessionConfig → List (Use C) → Session C → Session C
  apply_all config [] session = session
  apply_all config (u ∷ uses) session = apply_all config uses (apply config u session)

  apply-frame :
      (config : SessionConfig) (u : Use C) (session : Session C)
      → ((apply config u session).abs ≡ session.abs) × ((apply config u session).sid ≡ session.sid)
  unfolding apply touch reauthenticate
  apply-frame config (touched now) session = (refl, refl)
  apply-frame config (reauthenticated now email args) session = (refl, refl)

  apply_all-frame :
      (config : SessionConfig) (uses : List (Use C)) (session : Session C)
      → ((apply_all config uses session).abs ≡ session.abs)
        × ((apply_all config uses session).sid ≡ session.sid)
  unfolding apply_all
  apply_all-frame config [] session = (refl, refl)
  apply_all-frame config (u ∷ uses) session =
      let (abs_step, sid_step) = apply-frame config u session in
      let (abs_rest, sid_rest) = apply_all-frame config uses (apply config u session) in
      (abs_rest ∙ abs_step, sid_rest ∙ sid_step)

  fresh-le-abs :
      (now skew : ℕ) (max_age : Option ℕ) (session : Session C)
      → session_is_fresh now skew max_age session ≡ true
      → now ≤ session.abs
  unfolding session_is_fresh
  fresh-le-abs now skew max_age session h = ground arith

  -- However often a session is touched or re-authenticated, it is not fresh once the maximum lifetime
  -- from its creation has passed.
  pub fresh_within_lifetime :
      (config : SessionConfig) (created now skew : ℕ) (max_age : Option ℕ) (sid : String)
      (email : Text) (args : Authentication C) (uses : List (Use C))
      → session_is_fresh now skew max_age
          (apply_all config uses (new_session config created sid email args))
        ≡ true
      → now ≤ created + config.max_lifetime_seconds
  fresh_within_lifetime config created now skew max_age sid email args uses h =
      let (abs_kept, sid_kept) =
        apply_all-frame config uses (new_session config created sid email args) in
      unfold new_session in omega (arith, fresh-le-abs now skew max_age _ h, abs_kept)

  -- The age of the authentication, where one is asked for.
  abbrev pub IsRecent : ℕ → Option ℕ → Session C → Type 0
  IsRecent now none session = Unit
  IsRecent now (some age) session = now ≤ session.auth_time + age

  -- A session is fresh exactly when the idle timeout with its skew, the absolute cap and, where one
  -- is asked for, the age of the authentication all still hold.
  pub session_is_fresh_iff :
      (now skew : ℕ) (max_age : Option ℕ) (session : Session C)
      → (session_is_fresh now skew max_age session ≡ true)
        ↔ ((now ≤ session.exp + skew) × (now ≤ session.abs) × IsRecent now max_age session)
  unfolding session_is_fresh
  session_is_fresh_iff now skew none session =
      (λ h. (ground arith, ground arith, tt), λ h. ground arith)
  session_is_fresh_iff now skew (some m) session =
      (λ h. (ground arith, ground arith, ground arith), λ h. ground (arith, h.2))

  -- Re-authentication with an address gives the same session from any two sessions of one
  -- identifier, creation time and cap: no other field of the former one is inherited.
  pub reauthenticate_inherits_nothing :
      (config : SessionConfig) (now : ℕ) (first second : Session C) (email : Text)
      (args : Authentication C)
      → first.sid ≡ second.sid
      → first.iat ≡ second.iat
      → first.abs ≡ second.abs
      → reauthenticate config now first (some email) args
        ≡ reauthenticate config now second (some email) args
  unfolding reauthenticate
  reauthenticate_inherits_nothing config now first second email args p q r = ground arith
