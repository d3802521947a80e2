-- ===== src/Acr/Upstream.antt =====
-- The context that an upstream sign-in gives.
use smart_access_gateway.Prelude.{
  ℕ, zero, suc, ◌≤◌, ◌≡◌, refl, ◌∙◌, inl, inr, Bool, true, false, not, ◌&&◌, ◌||◌, List, [], ◌∷◌,
  arith, length, take, keep, any, length-append, length-take, includes, includes-append, uniq_from,
  All, All-append, All-take, ◌==◌, nat_eq, string_eq, Bool-cases,
}
use smart_access_gateway.Util.Bytes.{Text}
use smart_access_gateway.Util.Text.{text_eq, text_eq_iff, text_Eq, to_lower}
use smart_access_gateway.Acr.{
  AmrClaim, all_values, federated_amr, mfa_amr, is_hint, shows_mfa, is_short, normalised,
  acr_from_upstream, federated_mfa_acr,
}

length-uniq_from : (seen vs : List Text) → length (uniq_from seen vs) ≤ length vs
length-uniq_from seen [] = omega arith
length-uniq_from seen (v ∷ vs) =
    ground (arith, length-uniq_from seen vs, length-uniq_from (v ∷ seen) vs)

All-uniq_from : (P : Text → Type 0) (seen vs : List Text) → All P vs → All P (uniq_from seen vs)
All-uniq_from P seen [] h = tt
All-uniq_from P seen (v ∷ vs) h = elim (Bool-cases (includes v seen)) [
  | inl e ↦ rw e (All-uniq_from P seen vs h.1)
  | inr e ↦ rw e ((h.0, All-uniq_from P (v ∷ seen) vs h.1))
]

same_seen : (v a : Text) (seen : List Text) → v ≡ a → includes a seen ≡ includes v seen
same_seen v a seen e = rw e refl

includes-uniq_from :
    (a : Text) (seen vs : List Text)
    → (includes a (uniq_from seen vs) || includes a seen) ≡ (includes a vs || includes a seen)
includes-uniq_from a seen [] = refl
includes-uniq_from a seen (v ∷ vs) = elim (Bool-cases (includes v seen)) [
  | inl e ↦ rw e (ground (arith, text_eq_iff v a, includes-uniq_from a seen vs, same_seen v a seen))
  | inr e ↦ rw e (ground (arith, includes-uniq_from a (v ∷ seen) vs))
]

All-keep_short : (vs : List Text) → All (λ v. length v ≤ 32) (keep is_short vs)
All-keep_short [] = tt
All-keep_short (v ∷ vs) = ground (arith, All-keep_short vs)

length-normalised : (vs : List Text) → length (normalised vs) ≤ 18
unfolding normalised
length-normalised vs =
    let kept = take 16 (keep is_short vs) in
    let short : length kept ≤ 16 = ground (arith, length-take 16 (keep is_short vs)) in
    elim (Bool-cases (shows_mfa vs && not (includes mfa_amr (federated_amr ∷ kept)))) [
      | inl e ↦ rw e (grind (arith, length-append (federated_amr ∷ kept) (mfa_amr ∷ [])))
      | inr e ↦ rw e (ground arith)
    ]

All-normalised : (vs : List Text) → All (λ v. length v ≤ 32) (normalised vs)
unfolding normalised
All-normalised vs =
    let kept = take 16 (keep is_short vs) in
    let short : All (λ v. length v ≤ 32) (federated_amr ∷ kept) =
      (omega arith, All-take _ 16 _ (All-keep_short vs)) in
    elim (Bool-cases (shows_mfa vs && not (includes mfa_amr (federated_amr ∷ kept)))) [
      | inl e ↦ rw e (All-append _ (federated_amr ∷ kept) (mfa_amr ∷ []) short (omega arith, tt))
      | inr e ↦ rw e short
    ]

includes-take :
    (n : ℕ) (vs : List Text) → includes mfa_amr (take n vs) ≡ true → includes mfa_amr vs ≡ true
includes-take zero vs h = cc
includes-take (suc n) [] h = cc
includes-take (suc n) (v ∷ vs) h = ground (arith, includes-take n vs)

mfa_amr-is_hint : is_hint mfa_amr ≡ true
unfolding text_eq to_lower
mfa_amr-is_hint = refl

federated_amr-other : text_eq federated_amr mfa_amr ≡ false
unfolding text_eq
federated_amr-other = refl

mfa_amr-same : text_eq mfa_amr mfa_amr ≡ true
mfa_amr-same = (text_eq_iff mfa_amr mfa_amr).1 refl

includes-short :
    (vs : List Text) → includes mfa_amr (keep is_short vs) ≡ true → any is_hint vs ≡ true
includes-short [] h = cc
includes-short (v ∷ vs) h = elim (Bool-cases (text_eq v mfa_amr)) [
  | inl e ↦ rw ((text_eq_iff v mfa_amr).0 e, mfa_amr-is_hint) refl
  | inr e ↦ elim (Bool-cases (is_short v)) [
    | inl short ↦ rw (includes-short vs (rw (short, e) at h)) (ground arith)
    | inr long ↦ rw (includes-short vs (rw long at h)) (ground arith)
  ]
]

-- The method of a second factor among the values is a hint of one.
includes-kept :
    (n : ℕ) (vs : List Text)
    → includes mfa_amr (take n (keep is_short vs)) ≡ true
    → any is_hint vs ≡ true
includes-kept n vs h = includes-short vs (includes-take n (keep is_short vs) h)

-- Whatever an upstream sends, at most eighteen methods are carried onwards, each of at most 32
-- characters.
pub acr_from_upstream-bounded :
    (claim : AmrClaim)
    → (length (acr_from_upstream claim).amr ≤ 18)
      × All (λ v. length v ≤ 32) (acr_from_upstream claim).amr
unfolding acr_from_upstream normalised
acr_from_upstream-bounded claim =
    let vs = all_values claim in
    (
      grind (arith, length-uniq_from [] (normalised vs), length-normalised vs),
      All-uniq_from _ [] (normalised vs) (All-normalised vs),
    )

includes-normalised : (vs : List Text) → includes mfa_amr (normalised vs) ≡ shows_mfa vs
unfolding normalised shows_mfa
includes-normalised vs =
    let kept = take 16 (keep is_short vs) in
    elim (Bool-cases (includes mfa_amr kept)) [
      | inl e ↦ rw (e, federated_amr-other, includes-kept 16 vs e) (rw e (ground arith))
      | inr e ↦ elim (Bool-cases (shows_mfa vs)) [
        | inl shows ↦
            rw (shows, e, federated_amr-other)
              (rw
                (includes-append mfa_amr (take 16 (keep is_short vs)) (mfa_amr ∷ []), mfa_amr-same)
                (ground arith))
        | inr plain ↦ rw (plain, e, federated_amr-other) refl
      ]
    ]

includes-carried : (vs : List Text) → includes mfa_amr (uniq_from [] (normalised vs)) ≡ shows_mfa vs
includes-carried vs =
    or_false _ _ (includes-uniq_from mfa_amr [] (normalised vs)) ∙ includes-normalised vs
  where
    or_false : (a b : Bool) → (a || false) ≡ (b || false) → a ≡ b
    or_false a b h = ground arith

-- The method of a second factor is carried onwards exactly if the context is that of a federated sign-in
-- with a second factor.
pub acr_from_upstream-mfa :
    (claim : AmrClaim)
    → includes mfa_amr (acr_from_upstream claim).amr
      ≡ ((acr_from_upstream claim).acr == federated_mfa_acr)
unfolding acr_from_upstream
acr_from_upstream-mfa claim = elim (Bool-cases (shows_mfa (all_values claim))) [
  | inl e ↦ rw (includes-carried (all_values claim), e) refl
  | inr e ↦ rw (includes-carried (all_values claim), e) refl
]
