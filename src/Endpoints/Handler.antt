-- ===== src/Endpoints/Handler.antt =====
-- What the handlers of src/endpoints are made of: a function of the store's state that ends in a
-- value or in a failure.
use smart_access_gateway.Prelude.{◌≡◌, refl, Result, ok, err}
use smart_access_gateway.Errors.{Failure}

abbrev pub Handler : Type 0 → Type 0 → Type 0
Handler S A = S → Result Failure A × S

abbrev pub continue_with :
    {S A B : Type 0} → (A → Handler S B) → Result Failure A → S → Result Failure B × S
continue_with next (ok a) s = next a s
continue_with next (err e) s = (err e, s)

-- `abbrev`, so that a sequence computes as its parts do.
infixl 5 ◌>>=◌
abbrev pub ◌>>=◌ : {S A B : Type 0} → Handler S A → (A → Handler S B) → Handler S B
◌>>=◌ first next s = let (r, t) = first s in continue_with next r t

-- A step that leaves the store alone.
abbrev pub from_result : {S A : Type 0} → Result Failure A → Handler S A
from_result r s = (r, s)

-- A sequence that ends in a value has passed its first step, and the rest runs from there.
pub >>=-eq-ok :
    {S A B : Type 0} (first : Handler S A) (next : A → Handler S B) (s : S) {last : B}
    → ((first >>= next) s).0 ≡ ok last
    → (value : A) × ((first s).0 ≡ ok value)
      × ((next value (first s).1).0 ≡ ok last)
      × (((first >>= next) s).1 ≡ (next value (first s).1).1)
>>=-eq-ok {A} first next s {last} h = go (first s).0 refl h
  where
    go :
        (r : Result Failure A)
        → (first s).0 ≡ r
        → (continue_with next r (first s).1).0 ≡ ok last
        → (value : A) × ((first s).0 ≡ ok value)
          × ((next value (first s).1).0 ≡ ok last)
          × (((first >>= next) s).1 ≡ (next value (first s).1).1)
    go (ok a) e k = (a, e, k, rw e refl)
    go (err f) e k = absurd cc
