-- ===== src/Crypto/Seal/Opening.antt =====
-- What opening a token guarantees, whoever made the token: it has not expired, and what it holds
-- does not depend on when it is opened.
use smart_access_gateway.Prelude.{
  ℕ, ◌≡◌, inl, inr, false, not, Option, none, some, List, [], ◌∷◌, arith, ok, keep, ◌==◌, nat_eq,
  string_eq, Bool-cases, Option-cases,
}
use smart_access_gateway.Util.Bytes.{Text, unb64u}
use smart_access_gateway.Util.Text.{text_eq, text_Eq, split}
use smart_access_gateway.Crypto.Seal.{
  Aead, Codec, is_past, dot, check_payload, try_secrets, decode_parts, open_parts, unseal,
}

module _ (aead : Aead) {P : Type 0} (codec : Codec P) (now : ℕ) (max_age : Option ℕ) where
  check_payload-live :
      (o : Option P) (p : P)
      → check_payload aead codec now max_age o ≡ ok p
      → is_past now (codec.exp p) ≡ false
  unfolding check_payload
  check_payload-live none p h = cc
  check_payload-live (some q) p h = ground arith

  try_secrets-live :
      (purpose : Text) (iv aad ct : List ℕ) (secrets : List Text) (p : P)
      → try_secrets aead codec now max_age purpose iv aad ct secrets ≡ ok p
      → is_past now (codec.exp p) ≡ false
  unfolding try_secrets
  try_secrets-live purpose iv aad ct [] p h = cc
  try_secrets-live purpose iv aad ct (s ∷ rest) p h =
      elim (Option-cases (aead.decrypt (aead.aes_key s purpose) iv aad ct)) [
        | inl wrong ↦ try_secrets-live purpose iv aad ct rest p (rw (wrong, try_secrets) at h)
        | inr (pt, right) ↦ check_payload-live (codec.parse pt) p (rw (right, try_secrets) at h)
      ]

  decode_parts-live :
      (secrets : List Text) (purpose version : Text) (iv ct : Option (List ℕ)) (p : P)
      → decode_parts aead codec now max_age secrets purpose version iv ct ≡ ok p
      → is_past now (codec.exp p) ≡ false
  unfolding decode_parts
  decode_parts-live secrets purpose version (some iv) (some ct) p h =
      try_secrets-live purpose iv _ ct secrets p h
  decode_parts-live secrets purpose version (some iv) none p h = cc
  decode_parts-live secrets purpose version none _ p h = cc

  open_parts-live :
      (secrets : List Text) (purpose : Text) (parts : List Text) (p : P)
      → open_parts aead codec now max_age secrets purpose parts ≡ ok p
      → is_past now (codec.exp p) ≡ false
  unfolding open_parts
  open_parts-live secrets purpose (version ∷ sealed_for ∷ iv ∷ ct ∷ []) p h =
      elim (Bool-cases (text_eq sealed_for purpose)) [
        | inl same ↦
            decode_parts-live secrets purpose version (unb64u iv) (unb64u ct) p (rw same at h)
        | inr other ↦ absurd (ground (arith, rw other at h))
      ]
  open_parts-live secrets purpose [] p h = cc
  open_parts-live secrets purpose (a ∷ []) p h = cc
  open_parts-live secrets purpose (a ∷ b ∷ []) p h = cc
  open_parts-live secrets purpose (a ∷ b ∷ c ∷ []) p h = cc
  open_parts-live secrets purpose (a ∷ b ∷ c ∷ d ∷ e ∷ r) p h = cc

  -- A payload that a token opens to, under whatever secrets and purpose, has not expired.
  pub unseal-live :
      (secrets : List Text) (purpose token : Text) (p : P)
      → unseal aead codec now max_age secrets purpose token ≡ ok p
      → is_past now (codec.exp p) ≡ false
  unfolding unseal
  unseal-live secrets purpose token p h =
      open_parts-live (keep (λ s. not (s == [])) secrets) purpose (split dot token) p h

module _ (aead : Aead) {P : Type 0} (codec : Codec P) (now later : ℕ) (max_age : Option ℕ) where
  check_payload-same :
      (o : Option P) (p q : P)
      → check_payload aead codec now max_age o ≡ ok p
      → check_payload aead codec later max_age o ≡ ok q
      → p ≡ q
  unfolding check_payload
  check_payload-same none p q h k = cc
  check_payload-same (some r) p q h k = ground arith

  try_secrets-same :
      (purpose : Text) (iv aad ct : List ℕ) (secrets : List Text) (p q : P)
      → try_secrets aead codec now max_age purpose iv aad ct secrets ≡ ok p
      → try_secrets aead codec later max_age purpose iv aad ct secrets ≡ ok q
      → p ≡ q
  unfolding try_secrets
  try_secrets-same purpose iv aad ct [] p q h k = cc
  try_secrets-same purpose iv aad ct (s ∷ rest) p q h k =
      elim (Option-cases (aead.decrypt (aead.aes_key s purpose) iv aad ct)) [
        | inl wrong ↦
            try_secrets-same purpose iv aad ct rest p q (rw (wrong, try_secrets) at h)
              (rw (wrong, try_secrets) at k)
        | inr (pt, right) ↦
            check_payload-same (codec.parse pt) p q (rw (right, try_secrets) at h)
              (rw (right, try_secrets) at k)
      ]

  decode_parts-same :
      (secrets : List Text) (purpose version : Text) (iv ct : Option (List ℕ)) (p q : P)
      → decode_parts aead codec now max_age secrets purpose version iv ct ≡ ok p
      → decode_parts aead codec later max_age secrets purpose version iv ct ≡ ok q
      → p ≡ q
  unfolding decode_parts
  decode_parts-same secrets purpose version (some iv) (some ct) p q h k =
      try_secrets-same purpose iv _ ct secrets p q h k
  decode_parts-same secrets purpose version (some iv) none p q h k = cc
  decode_parts-same secrets purpose version none _ p q h k = cc

  open_parts-same :
      (secrets : List Text) (purpose : Text) (parts : List Text) (p q : P)
      → open_parts aead codec now max_age secrets purpose parts ≡ ok p
      → open_parts aead codec later max_age secrets purpose parts ≡ ok q
      → p ≡ q
  unfolding open_parts
  open_parts-same secrets purpose (version ∷ sealed_for ∷ iv ∷ ct ∷ []) p q h k =
      elim (Bool-cases (text_eq sealed_for purpose)) [
        | inl same ↦
            decode_parts-same secrets purpose version (unb64u iv) (unb64u ct) p q (rw same at h)
              (rw same at k)
        | inr other ↦ absurd (ground (arith, rw other at h))
      ]
  open_parts-same secrets purpose [] p q h k = cc
  open_parts-same secrets purpose (a ∷ []) p q h k = cc
  open_parts-same secrets purpose (a ∷ b ∷ []) p q h k = cc
  open_parts-same secrets purpose (a ∷ b ∷ c ∷ []) p q h k = cc
  open_parts-same secrets purpose (a ∷ b ∷ c ∷ d ∷ e ∷ r) p q h k = cc

  -- A token opens to one payload, at whatever times it opens.
  pub unseal-same :
      (secrets : List Text) (purpose token : Text) (p q : P)
      → unseal aead codec now max_age secrets purpose token ≡ ok p
      → unseal aead codec later max_age secrets purpose token ≡ ok q
      → p ≡ q
  unfolding unseal
  unseal-same secrets purpose token p q h k =
      open_parts-same (keep (λ s. not (s == [])) secrets) purpose (split dot token) p q h k
