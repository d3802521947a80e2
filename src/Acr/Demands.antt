-- ===== src/Acr/Demands.antt =====
-- Which demands each kind of sign-in can meet.
use smart_access_gateway.Prelude.{
  ℕ, zero, suc, String, ◌≡◌, refl, sym, ◌≢◌, inl, inr, Bool, true, false, not, ◌||◌, List, [], ◌∷◌,
  arith, any, all, ◌==◌, ==_iff, nat_eq, string_eq, if◌then◌else◌, Bool-cases,
}
use smart_access_gateway.Acr.{
  least_of, Bound, finite, infinite, otp_acr, local_password_acr, local_mfa_acr, federated_acr,
  federated_mfa_acr, mfa_acr, strength_of, meets, satisfies, routed, least_known, exceeds_otp,
  minimum_strength_required, requires_federation,
}

meets-otp : (want : String) → meets otp_acr want ≡ (strength_of (routed want) == 1)
unfolding meets strength_of
meets-otp want = elim (Bool-cases (want == mfa_acr)) [
  | inl e ↦ rw ((==_iff want mfa_acr).0 e) refl
  | inr mfa ↦ elim (Bool-cases (want == otp_acr)) [
    | inl e ↦ rw ((==_iff want otp_acr).0 e) refl
    | inr otp ↦ elim (Bool-cases (want == federated_acr)) [
      | inl e ↦ rw ((==_iff want federated_acr).0 e) refl
      | inr fed ↦ elim (Bool-cases (want == federated_mfa_acr)) [
        | inl e ↦ rw ((==_iff want federated_mfa_acr).0 e) refl
        | inr fed_mfa ↦
            rw (mfa, otp, fed, fed_mfa) (local (want == local_password_acr) (want == local_mfa_acr))
      ]
    ]
  ]
]
  where
    local : (a b : Bool) → (if a || b then false else false) ≡ false
    local a b = ground arith

-- One more strength: the least is at most one exactly if this one is one or the rest is.
least_of-otp :
    (n : ℕ) (b : Bound) → not (exceeds_otp (least_of n b)) ≡ (n == 1 || not (exceeds_otp b))
least_of-otp zero b = refl
least_of-otp (suc n) infinite = ground arith
least_of-otp (suc n) (finite m) = ground arith

least_known-otp :
    (requested : List String)
    → any (meets otp_acr) requested ≡ not (exceeds_otp (least_known requested))
unfolding least_known
least_known-otp [] = refl
least_known-otp (want ∷ requested) =
    rw (meets-otp want, least_known-otp requested)
      (sym (least_of-otp (strength_of (routed want)) (least_known requested)))

-- An email code meets a demand exactly if the routing does not send the person to an upstream or a
-- local account.
pub satisfies-otp :
    (requested : List String) → satisfies otp_acr requested ≡ not (requires_federation requested)
unfolding satisfies requires_federation minimum_strength_required
satisfies-otp [] = refl
satisfies-otp (want ∷ requested) = least_known-otp (want ∷ requested)

meets-federated :
    (held want : String)
    → (held == local_password_acr || held == local_mfa_acr) ≡ true
    → (want == federated_acr || want == federated_mfa_acr) ≡ true
    → meets held want ≡ false
unfolding meets
meets-federated held want h k = elim (Bool-cases (held == local_password_acr)) [
  | inl a ↦ elim (Bool-cases (want == federated_acr)) [
    | inl b ↦ rw ((==_iff held _).0 a, (==_iff want _).0 b) refl
    | inr b ↦ rw ((==_iff held _).0 a, (==_iff want federated_mfa_acr).0 (rw b at k)) refl
  ]
  | inr a ↦ elim (Bool-cases (want == federated_acr)) [
    | inl b ↦ rw ((==_iff held local_mfa_acr).0 (rw a at h), (==_iff want _).0 b) refl
    | inr b ↦
        rw
          ((==_iff held local_mfa_acr).0 (rw a at h), (==_iff want federated_mfa_acr).0 (rw b at k))
          refl
  ]
]

any-federated :
    (held : String) (requested : List String)
    → (held == local_password_acr || held == local_mfa_acr) ≡ true
    → all (λ want. want == federated_acr || want == federated_mfa_acr) requested ≡ true
    → any (meets held) requested ≡ false
any-federated held [] h k = refl
any-federated held (want ∷ requested) h k =
    rw (meets-federated held want h (ground arith)) (any-federated held requested h (ground arith))

-- A local sign-in, with or without a second factor, meets no demand that names something and only
-- methods of federation.
pub satisfies-separated :
    (held : String) (requested : List String)
    → (held == local_password_acr || held == local_mfa_acr) ≡ true
    → requested ≢ []
    → all (λ want. want == federated_acr || want == federated_mfa_acr) requested ≡ true
    → satisfies held requested ≡ false
unfolding satisfies
satisfies-separated held [] h ne k = absurd (ne refl)
satisfies-separated held (want ∷ requested) h ne k = any-federated held (want ∷ requested) h k
