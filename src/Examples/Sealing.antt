-- ===== src/Examples/Sealing.antt =====
-- Sealed tokens under the toy cipher, with a codec that knows one payload: a number that expires at
-- second 100.
use smart_access_gateway.Prelude.{
  ℕ, ◌≡◌, refl, ◌≢◌, true, some, [], ◌∷◌, arith, ok, err, get_elem?, all, includes, nat_eq,
  string_eq,
}
use smart_access_gateway.Util.Bytes.{Text, codes}
use smart_access_gateway.Util.Bytes.Base64.{b64u_url_safe, is_url_char}
use smart_access_gateway.Util.Bytes.{b64u}
use smart_access_gateway.Util.Text.{text_eq, text_Eq}
use smart_access_gateway.Crypto.Seal.{Codec, seal, unseal, purpose_mismatch}
use smart_access_gateway.Crypto.Seal.Laws.{unseal-seal, unseal-seal_other}
use smart_access_gateway.Examples.Toy.{toy_aead}

abbrev number_codec : Codec ℕ
number_codec = record {
  stringify = λ n. n ∷ [];
  parse = λ bytes. get_elem? bytes 0;
  exp = λ n. some 100;
  iat = λ n. some 10;
}

abbrev current : Text
current = codes "new"

abbrev former : Text
former = codes "old"

abbrev cookie : Text
cookie = codes "session"

abbrev token : Text
token = seal toy_aead number_codec former cookie (7 ∷ []) 42

former_held : includes former (current ∷ former ∷ []) ≡ true
unfolding text_eq
former_held = refl

former_given : former ≢ []
former_given e = cc

distinct : cookie ≢ codes "code"
distinct e = cc

unseal-seal_example :
    unseal toy_aead number_codec 50 (some 60) (current ∷ former ∷ []) cookie token ≡ ok 42
unseal-seal_example =
    unseal-seal toy_aead number_codec former cookie (7 ∷ []) 42 (omega arith) (omega arith) 50
      (some 60) (current ∷ former ∷ []) refl former_held former_given refl refl

unseal-seal_other_example :
    unseal toy_aead number_codec 50 (some 60) (current ∷ former ∷ []) (codes "code") token
    ≡ err purpose_mismatch
unseal-seal_other_example =
    unseal-seal_other toy_aead number_codec former cookie (7 ∷ []) 42 (omega arith) (omega arith) 50
      (some 60) (current ∷ former ∷ []) (codes "code") distinct

b64u_url_safe_example : all is_url_char (b64u (251 ∷ 255 ∷ [])) ≡ true
b64u_url_safe_example = b64u_url_safe (251 ∷ 255 ∷ []) (omega arith)
