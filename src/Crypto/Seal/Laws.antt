-- ===== src/Crypto/Seal/Laws.antt =====
-- What sealing promises: round trip under rotation, separation of purposes, soundness.
use smart_access_gateway.Prelude.{
  ℕ, ◌≡◌, refl, sym, ap, ◌∙◌, ◌≢◌, inl, inr, true, false, not, Option, some, List, [], ◌∷◌, arith,
  ok, err, keep, all, includes, All, ◌==◌, nat_eq, string_eq, Bool-cases,
}
use smart_access_gateway.Util.Bytes.{Text, IsByte, b64u}
use smart_access_gateway.Util.Bytes.Base64.{is_url_char, unb64u-b64u, b64u_url_safe}
use smart_access_gateway.Util.Text.{
  text_eq, text_eq_iff, text_Eq, split, IsFree, split-append, split-free,
}
use smart_access_gateway.Crypto.Seal.{
  purpose_mismatch, Aead, Codec, is_past, is_too_old, key_version, dot, aad_of, seal, check_payload,
  try_secrets, unseal,
}

-- A base64url text holds no dot.
url_safe-IsFree : (cs : Text) → all is_url_char cs ≡ true → IsFree dot cs
url_safe-IsFree [] h = tt
url_safe-IsFree (c ∷ cs) h = (ground arith, url_safe-IsFree cs (ground arith))

module _ (aead : Aead) {P : Type 0} (codec : Codec P) (secret purpose : Text) (iv : List ℕ)
    (payload : P) (free : IsFree dot purpose) (bytes : All IsByte iv) where
  abbrev ciphertext : List ℕ
  ciphertext =
      aead.encrypt (aead.aes_key secret purpose) iv (aad_of aead key_version purpose)
        (codec.stringify payload)

  -- The four parts of a sealed token.
  split-seal :
      split dot (seal aead codec secret purpose iv payload)
      ≡ key_version ∷ purpose ∷ b64u iv ∷ b64u ciphertext ∷ []
  unfolding seal
  split-seal =
      split-append dot key_version _ (omega arith)
      ∙ ap (◌∷◌ key_version) (
          split-append dot purpose _ free
          ∙ ap (◌∷◌ purpose) (
              split-append dot (b64u iv) _ (url_safe-IsFree _ (b64u_url_safe iv bytes))
              ∙ ap (◌∷◌ (b64u iv)) (
                  split-free dot (b64u ciphertext)
                    (url_safe-IsFree _ (b64u_url_safe ciphertext (aead.encrypt-bytes _ _ _ _))))))

  -- A token that is sealed for one purpose, which holds no dot, is refused for every other,
  -- whatever the secrets.
  pub unseal-seal_other :
      (now : ℕ) (max_age : Option ℕ) (secrets : List Text) (other : Text)
      → purpose ≢ other
      → unseal aead codec now max_age secrets other (seal aead codec secret purpose iv payload)
        ≡ err purpose_mismatch
  unfolding unseal
  unseal-seal_other now max_age secrets other ne =
      rw split-seal (ground (arith, text_eq_iff purpose other))

  try-encrypted :
      (now : ℕ) (max_age : Option ℕ) (secrets : List Text)
      → codec.parse (codec.stringify payload) ≡ some payload
      → includes secret secrets ≡ true
      → try_secrets aead codec now max_age purpose iv
          (aad_of aead key_version purpose)
          ciphertext
          secrets
        ≡ check_payload aead codec now max_age (some payload)
  unfolding try_secrets
  try-encrypted now max_age [] reads h = cc
  try-encrypted now max_age (s ∷ rest) reads h =
      let key = aead.aes_key secret purpose in
      let key' = aead.aes_key s purpose in
      let aad = aad_of aead key_version purpose in
      elim (Bool-cases (text_eq key key')) [
        | inl same ↦
            let dec : aead.decrypt key' iv aad ciphertext ≡ some (codec.stringify payload) =
              rw (← (text_eq_iff key key').0 same)
                (aead.decrypt-encrypt key iv aad (codec.stringify payload)) in
            rw (dec, try_secrets, reads)
        | inr other ↦
            let ne : key ≢ key' = λ e. ground (arith, (text_eq_iff key key').1 e) in
            rw (aead.decrypt_other_key key key' iv aad (codec.stringify payload) ne, try_secrets)
              (try-encrypted now max_age rest reads (later s ne rest h))
      ]
    where
      later :
          (t : Text)
          → aead.aes_key secret purpose ≢ aead.aes_key t purpose
          → (ts : List Text) → includes secret (t ∷ ts) ≡ true
          → includes secret ts ≡ true
      later t ne ts k = elim (Bool-cases (text_eq t secret)) [
        | inl same ↦
            absurd (ne (ap (λ x. aead.aes_key x purpose) (sym ((text_eq_iff t secret).0 same))))
        | inr other ↦ rw other at k
      ]

  includes-keep :
      (secrets : List Text)
      → secret ≢ []
      → includes secret secrets ≡ true
      → includes secret (keep (λ s. not (s == [])) secrets) ≡ true
  includes-keep [] ne h = h
  includes-keep (s ∷ rest) ne h = elim (Bool-cases (text_eq s [])) [
    | inl empty ↦ rw empty (
        includes-keep rest ne
          (ground (arith, text_eq_iff s secret, text_eq_iff s [], λ (e : secret ≡ []). ne e)))
    | inr full ↦ rw full (ground (arith, includes-keep rest ne))
  ]

  -- The rotation rule. The purpose holds no dot, the initialisation vector is bytes, and JSON
  -- reads back what it wrote of the payload. Then a token sealed under a secret that is not empty
  -- opens under every list of secrets that holds it, while the payload is neither expired nor too
  -- old.
  pub unseal-seal :
      (now : ℕ) (max_age : Option ℕ) (secrets : List Text)
      → codec.parse (codec.stringify payload) ≡ some payload
      → includes secret secrets ≡ true
      → secret ≢ []
      → is_past now (codec.exp payload) ≡ false
      → is_too_old now max_age (codec.iat payload) ≡ false
      → unseal aead codec now max_age secrets purpose (seal aead codec secret purpose iv payload)
        ≡ ok payload
  unfolding unseal check_payload
  unseal-seal now max_age secrets reads h ne live young =
      rw
        (
          split-seal,
          (text_eq_iff purpose purpose).1 refl,
          unb64u-b64u iv bytes,
          unb64u-b64u ciphertext (aead.encrypt-bytes _ _ _ _),
        )
        (try-encrypted now max_age _ reads (includes-keep secrets ne h) ∙ rw (live, young))
