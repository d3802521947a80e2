-- ===== src/Examples/Toy.antt =====
-- A cipher that hides nothing but keeps keys apart, for runs of the sealing: a ciphertext spells the
-- length of the key, the key and the plaintext in unary.
use smart_access_gateway.Prelude.{
  ℕ, zero, suc, ◌≡◌, refl, ap, ◌∙◌, ◌≢◌, inl, inr, Option, none, some, List, [], ◌∷◌, ◌++◌, arith,
  length, All, ◌==◌, ==_iff, nat_eq, string_eq, if◌then◌else◌, Bool-cases,
}
use smart_access_gateway.Util.Bytes.{IsByte}
use smart_access_gateway.Crypto.Seal.{Aead}

abbrev spell : ℕ → List ℕ → List ℕ
spell zero rest = 0 ∷ rest
spell (suc n) rest = 1 ∷ spell n rest

abbrev spell_all : List ℕ → List ℕ
spell_all [] = []
spell_all (n ∷ ns) = spell n (spell_all ns)

abbrev bump : List ℕ → List ℕ
bump [] = []
bump (n ∷ ns) = suc n ∷ ns

abbrev unspell : List ℕ → List ℕ
unspell [] = []
unspell (zero ∷ r) = 0 ∷ unspell r
unspell (suc k ∷ r) = bump (unspell r)

unspell-spell : (n : ℕ) (rest : List ℕ) → unspell (spell n rest) ≡ n ∷ unspell rest
unspell-spell zero rest = refl
unspell-spell (suc n) rest = ap bump (unspell-spell n rest)

unspell-spell_all : (ns : List ℕ) → unspell (spell_all ns) ≡ ns
unspell-spell_all [] = refl
unspell-spell_all (n ∷ ns) = unspell-spell n (spell_all ns) ∙ ap (◌∷◌ n) (unspell-spell_all ns)

spell-bytes : (n : ℕ) (rest : List ℕ) → All IsByte rest → All IsByte (spell n rest)
spell-bytes zero rest h = (omega arith, h)
spell-bytes (suc n) rest h = (omega arith, spell-bytes n rest h)

pub spell_all-bytes : (ns : List ℕ) → All IsByte (spell_all ns)
spell_all-bytes [] = tt
spell_all-bytes (n ∷ ns) = spell-bytes n (spell_all ns) (spell_all-bytes ns)

abbrev strip : List ℕ → List ℕ → Option (List ℕ)
strip [] ls = some ls
strip (k ∷ ks) [] = none
strip (k ∷ ks) (l ∷ ls) = let rest = strip ks ls in if k == l then rest else none

strip-append : (ks p : List ℕ) → strip ks (ks ++ p) ≡ some p
strip-append [] p = refl
strip-append (k ∷ ks) p = ground (arith, strip-append ks p)

strip_other : (a b p : List ℕ) → length a ≡ length b → a ≢ b → strip b (a ++ p) ≡ none
strip_other [] [] p l ne = absurd (ne refl)
strip_other [] (y ∷ b) p l ne = absurd (omega (arith, l))
strip_other (x ∷ a) [] p l ne = absurd (omega (arith, l))
strip_other (x ∷ a) (y ∷ b) p l ne = elim (Bool-cases (y == x)) [
  | inl e ↦ rw e (strip_other a b p (omega (arith, l)) (λ q. ne (ap_cons ((==_iff y x).0 e) q)))
  | inr e ↦ rw e refl
]
  where
    ap_cons : y ≡ x → a ≡ b → x ∷ a ≡ y ∷ b
    ap_cons e q = cc

abbrev open_with : List ℕ → List ℕ → Option (List ℕ)
open_with key [] = none
open_with key (n ∷ rest) = if n == length key then strip key rest else none

abbrev pub toy_encrypt : (key iv aad p : List ℕ) → List ℕ
toy_encrypt key iv aad p = spell_all (length key ∷ (key ++ p))

abbrev pub toy_decrypt : (key iv aad c : List ℕ) → Option (List ℕ)
toy_decrypt key iv aad c = open_with key (unspell c)

pub toy_decrypts :
    (key iv aad p : List ℕ) → toy_decrypt key iv aad (toy_encrypt key iv aad p) ≡ some p
toy_decrypts key iv aad p =
    rw (unspell-spell_all (length key ∷ (key ++ p)), (==_iff (length key) (length key)).1 refl)
      (strip-append key p)

pub toy_keeps_keys_apart :
    (key key' iv aad p : List ℕ)
    → key ≢ key'
    → toy_decrypt key' iv aad (toy_encrypt key iv aad p) ≡ none
toy_keeps_keys_apart key key' iv aad p ne =
    rw (unspell-spell_all (length key ∷ (key ++ p)))
      (elim (Bool-cases (length key == length key')) [
        | inl e ↦ rw e (strip_other key key' p ((==_iff (length key) (length key')).0 e) ne)
        | inr e ↦ rw e refl
      ])

abbrev pub toy_aead : Aead
toy_aead = record {
  aes_key = λ secret purpose. secret;
  utf8 = λ t. t;
  encrypt = toy_encrypt;
  decrypt = toy_decrypt;
  encrypt-bytes = λ key iv aad p. spell_all-bytes (length key ∷ (key ++ p));
  decrypt-encrypt = toy_decrypts;
  decrypt_other_key = toy_keeps_keys_apart;
}
