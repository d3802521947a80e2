-- ===== src/Prelude/Results.antt =====
-- Thrown exceptions as values: a computation ends in a value or in an error of the type `E`.
use mathlib.Core.Path.{◌≡◌, refl}
use mathlib.Core.Bool.{Bool, true, false}
use native.Mathlib.Omega.{arith}

pub data Result {ℓ} (E A : Type ℓ) : Type ℓ where
  ok : A → Result E A
  err : E → Result E A

infixl 5 ◌>>=◌ ◌>>◌
abbrev pub ◌>>=◌ {ℓ} : {E A B : Type ℓ} → Result E A → (A → Result E B) → Result E B
(err thrown) >>= next = err thrown
(ok value) >>= next = next value

abbrev pub ◌>>◌ {ℓ} : {E A B : Type ℓ} → Result E A → Result E B → Result E B
first >> second = first >>= λ done. second

-- `if (bad) throw e`
abbrev pub throw_if : {E : Type 0} → Bool → E → Result E (Unit {0})
throw_if false e = ok tt
throw_if true e = err e

-- A sequence that ends in a value has passed its first step.
pub >>=-eq-ok {ℓ} :
    {E A B : Type ℓ} (first : Result E A) (next : A → Result E B) {last : B}
    → (first >>= next) ≡ ok last
    → (value : A) × (first ≡ ok value) × (next value ≡ ok last)
>>=-eq-ok (err thrown) next ended = ground arith
>>=-eq-ok (ok value) next ended = (value, refl, ended)

-- And it has passed its guard.
pub passed :
    {E A : Type 0} (bad : Bool) (thrown : E) (next : Result E A) {last : A}
    → (throw_if bad thrown >> next) ≡ ok last
    → (bad ≡ false) × (next ≡ ok last)
passed false thrown next ended = (refl, ended)
passed true thrown next ended = cc

pub ok_injective : {E A : Type 0} {a b : A} → ◌≡◌ {A = Result E A} (ok a) (ok b) → a ≡ b
ok_injective same = cc
