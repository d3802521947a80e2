-- ===== src/Examples/Remembering.antt =====
-- A remembered address, read back within the year.
use smart_access_gateway.Prelude.{
  ◌≡◌, refl, ◌≢◌, true, none, some, [], ◌∷◌, arith, length, includes, ◌==◌, nat_eq, string_eq,
  if◌then◌else◌,
}
use smart_access_gateway.Util.Bytes.{Text, codes}
use smart_access_gateway.Util.Text.{text_eq, text_Eq, split, to_lower}
use smart_access_gateway.Crypto.Seal.{Codec}
use smart_access_gateway.Identity.{
  normalise_email, looks_like_email, trim, trim_start, trim_end, split_last,
}
use smart_access_gateway.RememberMe.{
  Remembered, remembered, read_remembered_email, remember_me_value,
  read_remembered_email-remember_me_value,
}
use smart_access_gateway.Examples.Toy.{toy_aead}

abbrev typed : Text
typed = codes "Ann@b.co"

abbrev address : Text
address = codes "ann@b.co"

abbrev kept : Remembered
kept = record { v = 1; email = some address; exp = some 31536005 }

-- A codec that knows one payload.
abbrev kept_codec : Codec Remembered
kept_codec = record {
  stringify = λ r. 1 ∷ [];
  parse = λ bytes. if length bytes == 1 then some kept else none;
  exp = λ r. r.exp;
  iat = λ r. none;
}

abbrev secret : Text
secret = codes "k"

normal : normalise_email typed ≡ some address
unfolding normalise_email trim trim_start trim_end split_last to_lower
normal = refl

shape : looks_like_email address ≡ true
unfolding looks_like_email split_last split
shape = refl

reads :
    kept_codec.parse (kept_codec.stringify (remembered toy_aead kept_codec 5 typed))
    ≡ some (remembered toy_aead kept_codec 5 typed)
reads = rw normal refl

secret_held : includes secret (secret ∷ []) ≡ true
unfolding text_eq
secret_held = refl

secret_given : secret ≢ []
secret_given e = cc

read_remembered_email-remember_me_value_example :
    read_remembered_email toy_aead kept_codec 1000
      (secret ∷ [])
      (some (remember_me_value toy_aead kept_codec 5 secret (7 ∷ []) typed))
    ≡ some address
read_remembered_email-remember_me_value_example =
    read_remembered_email-remember_me_value toy_aead kept_codec 5 1000 secret (secret ∷ []) (7 ∷ [])
      typed address reads refl (omega arith) secret_given secret_held normal shape (omega arith)
