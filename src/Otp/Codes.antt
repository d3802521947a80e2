-- ===== src/Otp/Codes.antt =====
-- Generated codes: their length and alphabet, how evenly they are drawn, and what may be typed back.
use mathlib.Core.Path.{subst}
use native.Mathlib.Nat.{mod-lt}
use smart_access_gateway.Prelude.{
  ℕ, zero, suc, ◌+◌, ◌-◌, ◌%◌, ◌≤◌, ◌<◌, min, ◌≡◌, refl, inl, inr, Bool, true, false, ◌&&◌, ◌||◌,
  Option, some, List, [], ◌∷◌, ◌++◌, arith, length, get_or, all, length-append, includes, All,
  All-append, ltb, leb, ◌==◌, ==_iff, nat_eq, string_eq, if◌then◌else◌, ltb→lt, Bool-cases,
}
use smart_access_gateway.Util.Bytes.{Text}
use smart_access_gateway.Util.Text.{text_Eq, text_eq}
use smart_access_gateway.Otp.{
  alphanumeric, numeric, byte_limit, draw, generate_code, is_code_char, normalise_code, grouped,
  format_code_for_display,
}

-- The bytes below `n` from which one round of `draw` makes the code of the one symbol `c`.
unfoldable pub drawn_below : Text → ℕ → ℕ → ℕ
drawn_below alphabet c zero = 0
drawn_below alphabet c (suc b) =
    let rest = drawn_below alphabet c b in
    if draw 1 alphabet (b ∷ []) [] == c ∷ [] then suc rest else rest

abbrev evenly : Text → ℕ → Text → Bool
evenly alphabet share [] = true
evenly alphabet share (c ∷ cs) = drawn_below alphabet c 256 == share && evenly alphabet share cs

evenly-All :
    (alphabet : Text) (share : ℕ) (cs : Text)
    → evenly alphabet share cs ≡ true
    → All (λ c. drawn_below alphabet c 256 ≡ share) cs
evenly-All alphabet share [] h = tt
evenly-All alphabet share (c ∷ cs) h = (
  ground (arith, ==_iff (drawn_below alphabet c 256) share),
  evenly-All alphabet share cs (ground arith),
)

alphanumeric_table : evenly alphanumeric 8 alphanumeric ≡ true
unfolding drawn_below draw alphanumeric text_eq
alphanumeric_table = refl

numeric_table : evenly numeric 25 numeric ≡ true
unfolding drawn_below draw numeric text_eq
numeric_table = refl

-- Rejection sampling has no bias: of the 256 values of a byte, each of the symbols of the
-- alphanumeric alphabet is drawn by exactly 8, and each of the ten digits by exactly 25, as the code
-- of one symbol that a round of that byte gives.
pub draw_uniform :
    All (λ c. drawn_below alphanumeric c 256 ≡ 8) alphanumeric
    × All (λ c. drawn_below numeric c 256 ≡ 25) numeric
draw_uniform = (
  evenly-All alphanumeric 8 alphanumeric alphanumeric_table,
  evenly-All numeric 25 numeric numeric_table,
)

-- How many bytes of a round are kept.
unfoldable pub kept : ℕ → List ℕ → ℕ
kept size [] = 0
kept size (b ∷ bytes) =
    let rest = kept size bytes in if leb (byte_limit size) b then rest else suc rest

unfoldable pub kept_all : ℕ → List (List ℕ) → ℕ
kept_all size [] = 0
kept_all size (r ∷ rounds) = kept size r + kept_all size rounds

module _ (wanted : ℕ) (alphabet : Text) where
  draw-length :
      (round : List ℕ) (out : Text)
      → length out < wanted
      → length (draw wanted alphabet round out)
        ≡ min wanted (length out + kept (length alphabet) round)
  unfolding draw kept
  draw-length [] out h = omega arith
  draw-length (b ∷ bytes) out h =
      let symbol = get_or alphabet (b % length alphabet) 0 in
      let next = out ++ (symbol ∷ []) in
      let grown = length-append out (symbol ∷ []) in
      ground (arith, draw-length bytes out h, draw-length bytes next)

  generate_code-length :
      (rounds : List (List ℕ)) (out code : Text)
      → length out ≤ wanted
      → generate_code wanted alphabet rounds out ≡ some code
      → length code ≡ wanted
  unfolding generate_code
  generate_code-length [] out code h e = ground arith
  generate_code-length (r ∷ rounds) out code h e = elim (Bool-cases (ltb (length out) wanted)) [
    | inl short ↦
        let drawn = draw-length r out (ltb→lt _ _ short) in
        generate_code-length rounds (draw wanted alphabet r out) code (omega arith) (rw short at e)
    | inr full ↦ ground (arith, rw full at e)
  ]

  -- The loop ends as soon as the rounds hold as many kept bytes as the code has characters.
  generate_code_total_from :
      (rounds : List (List ℕ)) (out : Text)
      → wanted ≤ length out + kept_all (length alphabet) rounds
      → (code : Text) × (generate_code wanted alphabet rounds out ≡ some code)
  unfolding generate_code kept_all
  generate_code_total_from [] out h = (out, ground arith)
  generate_code_total_from (r ∷ rounds) out h = elim (Bool-cases (ltb (length out) wanted)) [
    | inl short ↦
        let drawn = draw-length r out (ltb→lt _ _ short) in
        rw short (generate_code_total_from rounds (draw wanted alphabet r out) (omega arith))
    | inr full ↦ (out, rw full)
  ]

  module _ (P : ℕ → Type 0) (in_alphabet : (i : ℕ) → i < length alphabet → P (get_or alphabet i 0))
      (some_symbol : 0 < length alphabet) where
    draw-All : (round : List ℕ) (out : Text) → All P out → All P (draw wanted alphabet round out)
    unfolding draw
    draw-All [] out h = h
    draw-All (b ∷ bytes) out h =
        let symbol = get_or alphabet (b % length alphabet) 0 in
        let next = out ++ (symbol ∷ []) in
        let longer : All P next =
          All-append P out (symbol ∷ []) h
            (in_alphabet (b % length alphabet) (mod-lt b some_symbol), tt) in
        elim (Bool-cases (leb (byte_limit (length alphabet)) b)) [
          | inl over ↦ rw over (draw-All bytes out h)
          | inr fits ↦ elim (Bool-cases (length next == wanted)) [
            | inl done ↦ rw (fits, done) longer
            | inr more ↦ rw (fits, more) (draw-All bytes next longer)
          ]
        ]

    generate_code-All :
        (rounds : List (List ℕ)) (out code : Text)
        → All P out
        → generate_code wanted alphabet rounds out ≡ some code
        → All P code
    unfolding generate_code
    generate_code-All [] out code h e = elim (Bool-cases (ltb (length out) wanted)) [
      | inl short ↦ absurd (ground (arith, rw short at e))
      | inr full ↦ subst (All P) (some_inj (rw full at e)) h
    ]
      where
        some_inj : {a b : Text} → ◌≡◌ {A = Option Text} (some a) (some b) → a ≡ b
        some_inj q = cc
    generate_code-All (r ∷ rounds) out code h e = elim (Bool-cases (ltb (length out) wanted)) [
      | inl short ↦
          generate_code-All rounds (draw wanted alphabet r out) code (draw-All r out h)
            (rw short at e)
      | inr full ↦ subst (All P) (some_inj (rw full at e)) h
    ]
      where
        some_inj : {a b : Text} → ◌≡◌ {A = Option Text} (some a) (some b) → a ≡ b
        some_inj q = cc

-- A code is generated once the rounds hold as many bytes below the sampling limit as it has
-- characters.
pub generate_code_total :
    (wanted : ℕ) (alphabet : Text) (rounds : List (List ℕ))
    → wanted ≤ kept_all (length alphabet) rounds
    → (code : Text) × (generate_code wanted alphabet rounds [] ≡ some code)
generate_code_total wanted alphabet rounds h =
    generate_code_total_from wanted alphabet rounds [] (omega arith)

IsCodeChar : Text → ℕ → Type 0
IsCodeChar alphabet c = (includes c alphabet ≡ true) × (is_code_char c ≡ true)

get_or-IsCodeChar :
    (alphabet : Text) (i : ℕ)
    → all is_code_char alphabet ≡ true
    → i < length alphabet
    → IsCodeChar alphabet (get_or alphabet i 0)
unfolding IsCodeChar
get_or-IsCodeChar [] i h lt = absurd (omega arith)
get_or-IsCodeChar (c ∷ cs) zero h lt = (ground arith, ground arith)
get_or-IsCodeChar (c ∷ cs) (suc i) h lt =
    let (found, shape) = get_or-IsCodeChar cs i (ground arith) (omega arith) in
    (rw found (or-true (c == get_or cs i 0)), shape)
  where
    or-true : (b : Bool) → (b || true) ≡ true
    or-true true = refl
    or-true false = refl

normalise-grouped :
    (alphabet : Text) (size room : ℕ) (cs : Text)
    → All (IsCodeChar alphabet) cs
    → normalise_code (grouped size room cs) ≡ cs
unfolding normalise_code grouped IsCodeChar
normalise-grouped alphabet size room [] h = refl
normalise-grouped alphabet size zero (c ∷ cs) h =
    ground (arith, h.0.1, normalise-grouped alphabet size (size - 1) cs h.1)
normalise-grouped alphabet size (suc room) (c ∷ cs) h =
    ground (arith, h.0.1, normalise-grouped alphabet size room cs h.1)

-- Over an alphabet that is not empty and holds only digits and capital letters, a generated code
-- has the length asked for and only symbols of the alphabet, and what is printed for it folds to
-- the same code.
pub generate_code_sound :
    (wanted : ℕ) (alphabet : Text) (rounds : List (List ℕ)) (code : Text)
    → all is_code_char alphabet ≡ true
    → 0 < length alphabet
    → generate_code wanted alphabet rounds [] ≡ some code
    → (length code ≡ wanted)
      × All (λ c. includes c alphabet ≡ true) code
      × (normalise_code (format_code_for_display code) ≡ code)
unfolding format_code_for_display IsCodeChar
generate_code_sound wanted alphabet rounds code shape pos e =
    let size = if length code % 3 == 0 then 3 else 4 in
    let every =
      generate_code-All wanted alphabet (IsCodeChar alphabet)
        (λ i lt. get_or-IsCodeChar alphabet i shape lt) pos rounds [] code tt e in
    (
      generate_code-length wanted alphabet rounds [] code (omega arith) e,
      weaken code every,
      normalise-grouped alphabet size size code every,
    )
  where
    weaken : (cs : Text) → All (IsCodeChar alphabet) cs → All (λ c. includes c alphabet ≡ true) cs
    weaken [] h = tt
    weaken (c ∷ cs) h = (h.0.0, weaken cs h.1)
