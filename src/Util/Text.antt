-- ===== src/Util/Text.antt =====
-- The string methods of JavaScript that the sources use, over code units.
use Prim.Native.Char.{IsScalar, char, nul}
use mathlib.Core.Logic.{dite}
use native.Mathlib.Decide.{dec_lt}
use smart_access_gateway.Prelude.{
  ℕ, ◌+◌, ◌-◌, ◌<◌, String, ◌≡◌, refl, ap, ◌≢◌, ◌↔◌, inl, inr, Bool, true, false, ◌&&◌, ◌||◌, List,
  [], ◌∷◌, ◌++◌, map, arith, All, leb, Eq, ◌==◌, ==_iff, nat_eq, string_eq, if◌then◌else◌,
  Bool-cases,
}
use smart_access_gateway.Util.Bytes.{Text}

-- `===` on texts.
unfoldable pub text_eq : Text → Text → Bool
text_eq [] [] = true
text_eq [] (y ∷ ys) = false
text_eq (x ∷ xs) [] = false
text_eq (x ∷ xs) (y ∷ ys) = x == y && text_eq xs ys

pub text_eq_iff : (xs ys : Text) → (text_eq xs ys ≡ true) ↔ (xs ≡ ys)
unfolding text_eq
text_eq_iff [] [] = (λ h. refl, λ h. refl)
text_eq_iff [] (y ∷ ys) = (λ h. cc, λ h. cc)
text_eq_iff (x ∷ xs) [] = (λ h. cc, λ h. cc)
text_eq_iff (x ∷ xs) (y ∷ ys) = ground (arith, text_eq_iff xs ys)

instance abbrev pub text_Eq : Eq Text
text_Eq = record { test = text_eq; test_iff = text_eq_iff }

abbrev cons_first : ℕ → List Text → List Text
cons_first c [] = (c ∷ []) ∷ []
cons_first c (part ∷ parts) = (c ∷ part) ∷ parts

-- `text.split(sep)` at a separator of one character.
unfoldable pub split : ℕ → Text → List Text
split sep [] = [] ∷ []
split sep (c ∷ cs) = let rest = split sep cs in if c == sep then [] ∷ rest else cons_first c rest

-- The separator does not occur.
abbrev pub IsFree : ℕ → Text → Type 0
IsFree sep = All (λ c. c ≢ sep)

pub split-free : (sep : ℕ) (a : Text) → IsFree sep a → split sep a ≡ a ∷ []
unfolding split
split-free sep [] h = refl
split-free sep (c ∷ cs) h = ground (arith, split-free sep cs h.1)

pub split-append :
    (sep : ℕ) (a b : Text) → IsFree sep a → split sep (a ++ (sep ∷ b)) ≡ a ∷ split sep b
unfolding split
split-append sep [] b h = ground arith
split-append sep (c ∷ cs) b h = ground (arith, split-append sep cs b h.1)

-- There is always a first part.
split-cons :
    (sep : ℕ) (a : Text) → (part : Text) × (parts : List Text) × (split sep a ≡ part ∷ parts)
unfolding split
split-cons sep [] = ([], [], refl)
split-cons sep (c ∷ cs) =
    let (part, parts, e) = split-cons sep cs in
    elim (Bool-cases (c == sep)) [
      | inl same ↦ ([], split sep cs, rw same)
      | inr other ↦ (c ∷ part, parts, rw (other, e))
    ]

-- `parts.join(sep)` at a separator of one character.
unfoldable pub join : ℕ → List Text → Text
join sep [] = []
join sep (part ∷ []) = part
join sep (part ∷ next ∷ parts) = part ++ (sep ∷ join sep (next ∷ parts))

-- The inverse of `split`.
pub join-split : (sep : ℕ) (a : Text) → join sep (split sep a) ≡ a
unfolding join split
join-split sep [] = refl
join-split sep (c ∷ cs) =
    let (part, parts, e) = split-cons sep cs in
    let ih = rw e at (join-split sep cs) in
    elim (Bool-cases (c == sep)) [
      | inl same ↦ rw (same, e) (rw ((==_iff c sep).0 same) (ap (◌∷◌ sep) ih))
      | inr other ↦ rw (other, e) (join_first c part parts cs ih)
    ]
  where
    join_first :
        (d : ℕ) (part : Text) (parts : List Text) (rest : Text)
        → join sep (part ∷ parts) ≡ rest
        → join sep ((d ∷ part) ∷ parts) ≡ d ∷ rest
    join_first d part [] rest h = ap (◌∷◌ d) h
    join_first d part (next ∷ parts) rest h = ap (◌∷◌ d) h

pub split-IsFree_parts : (sep : ℕ) (a : Text) → All (IsFree sep) (split sep a)
unfolding split
split-IsFree_parts sep [] = (tt, tt)
split-IsFree_parts sep (c ∷ cs) =
    let (part, parts, e) = split-cons sep cs in
    let ih = rw e at (split-IsFree_parts sep cs) in
    elim (Bool-cases (c == sep)) [
      | inl same ↦ rw (same, e) (tt, ih)
      | inr other ↦ rw (other, e) ((ground arith, ih.0), ih.1)
    ]

-- `text.toLowerCase()` and `text.toUpperCase()`, on ASCII.
abbrev pub lower_char : ℕ → ℕ
lower_char c = if leb b'A' c && leb c b'Z' then c + 32 else c

abbrev pub upper_char : ℕ → ℕ
upper_char c = if leb b'a' c && leb c b'z' then c - 32 else c

unfoldable pub to_lower : Text → Text
to_lower = map lower_char

unfoldable pub to_upper : Text → Text
to_upper = map upper_char

pub to_lower_idempotent : (a : Text) → to_lower (to_lower a) ≡ to_lower a
unfolding to_lower
to_lower_idempotent [] = refl
to_lower_idempotent (c ∷ cs) = ground (arith, to_lower_idempotent cs)

-- `text.startsWith(p)` and `text.endsWith(p)`.
unfoldable pub starts_with : Text → Text → Bool
starts_with a [] = true
starts_with [] (p ∷ ps) = false
starts_with (c ∷ cs) (p ∷ ps) = c == p && starts_with cs ps

unfoldable pub ends_with : Text → Text → Bool
ends_with [] p = text_eq [] p
ends_with (c ∷ cs) p = text_eq (c ∷ cs) p || ends_with cs p

-- The members of `\s` below U+0080, and `text.split(/\s+/).filter(Boolean)`.
abbrev pub is_blank : ℕ → Bool
is_blank c = leb 9 c && leb c 13 || c == 32

abbrev pub close_word : Text → List Text → List Text
close_word [] words = words
close_word (c ∷ word) words = (c ∷ word) ∷ words

-- The word at hand, and those after it.
unfoldable pub words_from : Text → Text × List Text
words_from [] = ([], [])
words_from (c ∷ cs) =
    let (word, words) = words_from cs in
    if is_blank c then ([], close_word word words) else (c ∷ word, words)

unfoldable pub words : Text → List Text
unfolding words_from
words text = let (word, rest) = words_from text in close_word word rest

-- The text of a code unit that is a character by itself; U+0000 stands for the others.
is_scalar : (c : ℕ) → c < 55296 → IsScalar c
is_scalar c below = ground arith

unfoldable pub spell : Text → String
unfolding is_scalar
spell [] = String.[]
spell (c ∷ cs) =
    String.◌∷◌ (dite (dec_lt c 55296) (λ below. char c (is_scalar c below)) (λ above. nul))
      (spell cs)
