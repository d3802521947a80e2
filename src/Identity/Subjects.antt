-- ===== src/Identity/Subjects.antt =====
-- Subject identifiers: different people, sectors or kinds of identity give different inputs.
use mathlib.Core.Path.{ap₂}
use smart_access_gateway.Prelude.{◌≡◌, refl, ap, ◌≢◌, List, [], ◌∷◌, ◌++◌, arith, All}
use smart_access_gateway.Util.Bytes.{Text, codes}
use smart_access_gateway.Util.Text.{IsFree}
use smart_access_gateway.Identity.{
  scope_of, scope_of, SubjectClient, join_parts, subject_type_of, subject_input,
}

-- The separator is found in one way only, where neither first part holds a bar.
append_separator_inj :
    (a b x y : Text)
    → IsFree b'|' a
    → IsFree b'|' b
    → a ++ (b' ' ∷ b'|' ∷ b' ' ∷ x) ≡ b ++ (b' ' ∷ b'|' ∷ b' ' ∷ y)
    → (a ≡ b) × (x ≡ y)
append_separator_inj [] [] x y h k e = (refl, cc)
append_separator_inj [] (c ∷ []) x y h k e = absurd (ground arith)
append_separator_inj [] (c ∷ d ∷ b) x y h k e = absurd (ground arith)
append_separator_inj (c ∷ []) [] x y h k e = absurd (ground arith)
append_separator_inj (c ∷ d ∷ a) [] x y h k e = absurd (ground arith)
append_separator_inj (c ∷ a) (d ∷ b) x y h k e =
    let (same, rest) = append_separator_inj a b x y h.1 k.1 cc in (cc, rest)

-- The parts of an input hold no bar.
abbrev pub BarFree : List Text → Type 0
BarFree = All (IsFree b'|')

bar_not-IsFree : (a x : Text) → ¬ IsFree b'|' (a ++ (b' ' ∷ b'|' ∷ b' ' ∷ x))
bar_not-IsFree [] x h = h.1.0 refl
bar_not-IsFree (c ∷ a) x h = bar_not-IsFree a x h.1

-- Joined parts determine the parts.
join_parts_inj :
    (xs ys : List Text)
    → BarFree xs
    → BarFree ys
    → xs ≢ []
    → ys ≢ []
    → join_parts xs ≡ join_parts ys
    → xs ≡ ys
unfolding join_parts
join_parts_inj [] ys h k n m e = absurd (n refl)
join_parts_inj xs [] h k n m e = absurd (m refl)
join_parts_inj (x ∷ []) (y ∷ []) h k n m e = ap (λ t. t ∷ []) e
join_parts_inj (x ∷ []) (y ∷ y' ∷ ys) h k n m e = absurd (bar_not-IsFree y _ (rw e at h.0))
join_parts_inj (x ∷ x' ∷ xs) (y ∷ []) h k n m e = absurd (bar_not-IsFree x _ (rw (← e) at k.0))
join_parts_inj (x ∷ x' ∷ xs) (y ∷ y' ∷ ys) h k n m e =
    let (first, rest) = append_separator_inj x y _ _ h.0 k.0 e in
    ap₂ ◌∷◌ first (join_parts_inj (x' ∷ xs) (y' ∷ ys) h.1 k.1 (λ q. cc) (λ q. cc) rest)

abbrev pub subject_parts : Text → List Text → SubjectClient → List Text
subject_parts configured principal client =
    codes "sub" ∷ subject_type_of configured client ∷ scope_of configured client ∷ principal

-- Where no part holds the separator's bar, the input of a subject determines the subject type, the
-- sector or the public scope, and the principal.
pub subject_input_inj :
    (configured : Text) (first second : SubjectClient) (p q : List Text)
    → BarFree (subject_parts configured p first)
    → BarFree (subject_parts configured q second)
    → subject_input configured p first ≡ subject_input configured q second
    → (subject_type_of configured first ≡ subject_type_of configured second)
      × (scope_of configured first ≡ scope_of configured second)
      × (p ≡ q)
unfolding subject_input
subject_input_inj configured first second p q h k e =
    let all_parts =
      join_parts_inj (subject_parts configured p first) (subject_parts configured q second) h k
        (λ r. cc) (λ r. cc) e in
    (cc, cc, cc)
