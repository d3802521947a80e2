-- ===== src/RememberMe.antt =====
-- src/remember-me.js: the remembered address, sealed in a cookie of its own. The cookies themselves
-- are formatted and parsed elsewhere: the value of the cookie is an argument.
use smart_access_gateway.Prelude.{
  ℕ, ◌+◌, ◌*◌, ◌≤◌, ◌≡◌, refl, ◌≢◌, Bool, true, not, ◌||◌, Option, none, some, List, [], ◌∷◌, arith,
  Result, ok, err, includes, All, ltb, ◌==◌, nat_eq, string_eq, if◌then◌else◌,
}
use smart_access_gateway.Util.Bytes.{Text, IsByte, codes}
use smart_access_gateway.Crypto.Seal.{SealError, Aead, Codec, seal, unseal}
use smart_access_gateway.Util.Text.{text_Eq}
use smart_access_gateway.Crypto.Seal.Laws.{unseal-seal}
use smart_access_gateway.Identity.{normalise_email, looks_like_email}
use smart_access_gateway.Identity.Emails.{normalise_email_idempotent}

pub record Remembered : Type 0 where
  pub v : ℕ
  pub email : Option Text
  pub exp : Option ℕ

-- `PURPOSE` and `REMEMBER_ME_TTL_SECONDS`
abbrev pub remember_purpose : Text
remember_purpose = codes "remember-me"

abbrev pub remember_ttl : ℕ
remember_ttl = 365 * 24 * 60 * 60

abbrev pub normalised_email : Option Text → Option Text
normalised_email none = none
normalised_email (some email) = normalise_email email

abbrev pub plausible : Option Text → Option Text
plausible none = none
plausible (some email) = if looks_like_email email then some email else none

abbrev pub has_expired : ℕ → Option ℕ → Bool
has_expired now none = true
has_expired now (some exp) = ltb exp now

abbrev pub checked : ℕ → Result SealError Remembered → Option Text
checked now (err e) = none
checked now (ok r) =
    if not (r.v == 1) || has_expired now r.exp then none else plausible (normalised_email r.email)

module _ (aead : Aead) (codec : Codec Remembered) where
  -- `readRememberedEmail`, from the value of the cookie.
  unfoldable pub read_remembered_email : ℕ → List Text → Option Text → Option Text
  read_remembered_email now secrets none = none
  read_remembered_email now secrets (some []) = none
  read_remembered_email now secrets (some (c ∷ raw)) =
      checked now (unseal aead codec now none secrets remember_purpose (c ∷ raw))

  abbrev pub remembered : ℕ → Text → Remembered
  remembered now email = record {
    v = 1;
    email = normalise_email email;
    exp = some (now + remember_ttl);
  }

  -- `rememberMeCookie`: the value of the cookie.
  unfoldable pub remember_me_value : ℕ → Text → List ℕ → Text → Text
  remember_me_value now secret iv email =
      seal aead codec secret remember_purpose iv (remembered now email)

  -- An address that is remembered, and that normalises to one that looks like an address, is read
  -- back normalised for a year, under every list of secrets that holds the one it was sealed with,
  -- which is not empty, if JSON reads back what it wrote with its `exp` and the initialisation
  -- vector is bytes.
  pub read_remembered_email-remember_me_value :
      (now t : ℕ) (secret : Text) (secrets : List Text) (iv : List ℕ) (address email : Text)
      → codec.parse (codec.stringify (remembered now address)) ≡ some (remembered now address)
      → codec.exp (remembered now address) ≡ some (now + remember_ttl)
      → All IsByte iv
      → secret ≢ []
      → includes secret secrets ≡ true
      → normalise_email address ≡ some email
      → looks_like_email email ≡ true
      → t ≤ now + remember_ttl
      → read_remembered_email t secrets (some (remember_me_value now secret iv address))
        ≡ some email
  unfolding read_remembered_email remember_me_value seal
  read_remembered_email-remember_me_value now t secret secrets iv address email reads exp bytes ne
        held normal shape le =
      let opened =
        unseal-seal aead codec secret remember_purpose iv (remembered now address) (omega arith)
          bytes t none secrets reads held ne (rw exp (ground arith)) refl in
      rw opened (rw (normal, normalise_email_idempotent address email normal, shape) (ground arith))
