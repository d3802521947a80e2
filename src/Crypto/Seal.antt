-- ===== src/Crypto/Seal.antt =====
-- `seal` and `unseal` of src/crypto/secrets.js. Web Crypto and JSON are parameters: AES-GCM with
-- the keys that `aesKey` derives, `TextEncoder`, and the codec of the payload.
pub mod Laws
pub mod Opening
use smart_access_gateway.Prelude.{
  ℕ, zero, suc, ◌+◌, ◌≡◌, ◌≢◌, Bool, false, not, Option, none, some, List, [], ◌∷◌, ◌++◌, Result,
  ok, err, keep, All, ltb, ◌==◌, nat_eq, string_eq, if◌then◌else◌,
}
use smart_access_gateway.Util.Bytes.{Text, codes, IsByte, b64u, unb64u}
use smart_access_gateway.Util.Text.{text_Eq, split}

pub data SealError : Type 0 where
  malformed_token : SealError
  purpose_mismatch : SealError
  malformed_payload : SealError
  token_expired : SealError
  token_too_old : SealError
  could_not_decrypt : SealError

-- Authenticated encryption: what is encrypted decrypts under its own key and data, and under no
-- other key. `aes_key` is the derivation from a master secret and a purpose.
pub record Aead : Type 0 where
  pub aes_key : (secret purpose : Text) → List ℕ
  pub utf8 : Text → List ℕ
  pub encrypt : (key iv aad plaintext : List ℕ) → List ℕ
  pub decrypt : (key iv aad ciphertext : List ℕ) → Option (List ℕ)
  pub encrypt-bytes : (key iv aad p : List ℕ) → All IsByte (encrypt key iv aad p)
  pub decrypt-encrypt : (key iv aad p : List ℕ) → decrypt key iv aad (encrypt key iv aad p) ≡ some p
  pub decrypt_other_key :
      (key key' iv aad p : List ℕ) → key ≢ key' → decrypt key' iv aad (encrypt key iv aad p) ≡ none

-- `JSON.stringify` and `JSON.parse` at the type of the payload, and its time fields.
pub record Codec (P : Type 0) : Type 0 where
  pub stringify : P → List ℕ
  pub parse : List ℕ → Option P
  pub exp : P → Option ℕ
  pub iat : P → Option ℕ

-- `typeof payload.exp === 'number' && payload.exp < now`
abbrev pub is_past : ℕ → Option ℕ → Bool
is_past now none = false
is_past now (some t) = ltb t now

-- `opts.maxAgeSeconds && typeof payload.iat === 'number' && payload.iat + opts.maxAgeSeconds < now`
abbrev pub is_too_old : ℕ → Option ℕ → Option ℕ → Bool
is_too_old now none iat = false
is_too_old now (some zero) iat = false
is_too_old now (some (suc age)) none = false
is_too_old now (some (suc age)) (some iat) = ltb (iat + suc age) now

abbrev pub key_version : Text
key_version = codes "k1"

abbrev pub dot : ℕ
dot = b'.'

-- `utf8(keyVersion + '.' + purpose)`
abbrev pub aad_of : Aead → Text → Text → List ℕ
aad_of aead version purpose = aead.utf8 (version ++ (dot ∷ purpose))

module _ (aead : Aead) {P : Type 0} (codec : Codec P) where
  unfoldable pub seal : Text → Text → List ℕ → P → Text
  seal secret purpose iv payload =
      let ct =
        aead.encrypt (aead.aes_key secret purpose) iv (aad_of aead key_version purpose)
          (codec.stringify payload) in
      key_version ++ (dot ∷ (purpose ++ (dot ∷ (b64u iv ++ (dot ∷ b64u ct)))))

  -- What follows a decryption: the payload is parsed and its times are checked.
  unfoldable pub check_payload : ℕ → Option ℕ → Option P → Result SealError P
  check_payload now max_age none = err malformed_payload
  check_payload now max_age (some payload) =
      if is_past now (codec.exp payload)
      then err token_expired
      else if is_too_old now max_age (codec.iat payload)
      then err token_too_old
      else ok payload

  -- The loop over the secrets: a wrong key goes on to the next one.
  unfoldable pub try_secrets :
      ℕ → Option ℕ → Text → (iv aad ct : List ℕ) → List Text → Result SealError P
  try_secrets now max_age purpose iv aad ct [] = err could_not_decrypt
  try_secrets now max_age purpose iv aad ct (secret ∷ rest) =
      elim (aead.decrypt (aead.aes_key secret purpose) iv aad ct) [
        | none ↦ try_secrets now max_age purpose iv aad ct rest
        | some pt ↦ check_payload now max_age (codec.parse pt)
      ]

  decode_parts :
      ℕ
      → Option ℕ
      → List Text
      → Text
      → Text
      → Option (List ℕ)
      → Option (List ℕ)
      → Result SealError P
  decode_parts now max_age secrets purpose version (some iv) (some ct) =
      try_secrets now max_age purpose iv (aad_of aead version purpose) ct secrets
  decode_parts now max_age secrets purpose version _ _ = err malformed_token

  open_parts : ℕ → Option ℕ → List Text → Text → List Text → Result SealError P
  unfolding decode_parts
  open_parts now max_age secrets purpose (version ∷ sealed_for ∷ iv ∷ ct ∷ []) =
      if sealed_for == purpose
      then decode_parts now max_age secrets purpose version (unb64u iv) (unb64u ct)
      else err purpose_mismatch
  open_parts now max_age secrets purpose _ = err malformed_token

  -- `unseal`; empty secrets are dropped from the list.
  unfoldable pub unseal : ℕ → Option ℕ → List Text → Text → Text → Result SealError P
  unfolding open_parts
  unseal now max_age secrets purpose token =
      open_parts now max_age (keep (λ s. not (s == [])) secrets) purpose (split dot token)
