-- ===== src/Util/Bytes/Compare.antt =====
-- The constant-time comparison decides equality.
use Prim.Native.Nat.{bit_or, bit_xor, digits, differ, bit_or-bitwise, bit_xor-bitwise}
use smart_access_gateway.Prelude.{
  ℕ, zero, suc, ◌/◌, ◌%◌, ◌≤◌, max, ◌≡◌, refl, sym, ◌∙◌, ◌↔◌, true, List, [], ◌∷◌, arith, length,
  ==_iff, nat_eq, string_eq,
}
use smart_access_gateway.Util.Bytes.{diff_from, timing_safe_equal}

-- The digit recursions that the native operations stand for.
abbrev or_digits : ℕ → ℕ → ℕ → ℕ
or_digits n a b = digits (λ c. c) max n a b

abbrev xor_digits : ℕ → ℕ → ℕ → ℕ
xor_digits n a b = digits (λ c. c) differ n a b

or_digits-eq-zero : (n a b : ℕ) → a ≤ n → or_digits n a b ≡ 0 → (a ≡ 0) × (b ≡ 0)
or_digits-eq-zero zero a b h e = (omega arith, e)
or_digits-eq-zero (suc n) zero b h e = (refl, e)
or_digits-eq-zero (suc n) (suc a) b h e =
    omega (arith, or_digits-eq-zero n (suc a / 2) (b / 2) (omega arith) (omega arith))

differ_bits : (a b : ℕ) → differ (a % 2) (b % 2) ≡ 0 → a % 2 ≡ b % 2
differ_bits a b h = ground arith

differ_self : (a : ℕ) → differ a a ≡ 0
differ_self zero = refl
differ_self (suc a) = differ_self a

xor_digits-eq-zero : (n a b : ℕ) → a ≤ n → xor_digits n a b ≡ 0 → a ≡ b
xor_digits-eq-zero zero a b h e = omega arith
xor_digits-eq-zero (suc n) zero b h e = sym e
xor_digits-eq-zero (suc n) (suc a) b h e = omega (
  arith,
  xor_digits-eq-zero n (suc a / 2) (b / 2) (omega arith) (omega arith),
  differ_bits (suc a) b (omega arith),
)

xor_digits_self : (n a : ℕ) → a ≤ n → xor_digits n a a ≡ 0
xor_digits_self zero a h = omega arith
xor_digits_self (suc n) zero h = refl
xor_digits_self (suc n) (suc a) h =
    omega (arith, xor_digits_self n (suc a / 2) (omega arith), differ_self (suc a % 2))

or-eq-zero : (a b : ℕ) → bit_or a b ≡ 0 → (a ≡ 0) × (b ≡ 0)
or-eq-zero a b h = or_digits-eq-zero a a b (omega arith) (sym (bit_or-bitwise a b) ∙ h)

xor-eq-zero : (a b : ℕ) → bit_xor a b ≡ 0 → a ≡ b
xor-eq-zero a b h = xor_digits-eq-zero a a b (omega arith) (sym (bit_xor-bitwise a b) ∙ h)

xor_self : (a : ℕ) → bit_xor a a ≡ 0
xor_self a = bit_xor-bitwise a a ∙ xor_digits_self a a (omega arith)

-- A difference that has shown stays.
diff_from-eq-zero : (d : ℕ) (xs ys : List ℕ) → diff_from d xs ys ≡ 0 → d ≡ 0
unfolding diff_from
diff_from-eq-zero d [] [] h = h
diff_from-eq-zero d [] (b ∷ bs) h =
    (or-eq-zero d _ (diff_from-eq-zero (bit_or d (bit_xor 0 b)) [] bs h)).0
diff_from-eq-zero d (a ∷ xs) [] h =
    (or-eq-zero d _ (diff_from-eq-zero (bit_or d (bit_xor a 0)) xs [] h)).0
diff_from-eq-zero d (a ∷ xs) (b ∷ bs) h =
    (or-eq-zero d _ (diff_from-eq-zero (bit_or d (bit_xor a b)) xs bs h)).0

diff_from_eq : (d : ℕ) (xs ys : List ℕ) → length xs ≡ length ys → diff_from d xs ys ≡ 0 → xs ≡ ys
unfolding diff_from
diff_from_eq d [] [] l h = refl
diff_from_eq d [] (b ∷ bs) l h = absurd (omega arith)
diff_from_eq d (a ∷ xs) [] l h = absurd (omega arith)
diff_from_eq d (a ∷ xs) (b ∷ bs) l h =
    let d' = bit_or d (bit_xor a b) in
    let same = xor-eq-zero a b (or-eq-zero d _ (diff_from-eq-zero d' xs bs h)).1 in
    rw (same, diff_from_eq d' xs bs (omega arith) h)

diff_from_self : (d : ℕ) (xs : List ℕ) → d ≡ 0 → diff_from d xs xs ≡ 0
unfolding diff_from
diff_from_self d [] h = h
diff_from_self d (a ∷ xs) h = rw (xor_self a, h) (diff_from_self 0 xs refl)

timing_safe_refl : (xs : List ℕ) → timing_safe_equal xs xs ≡ true
unfolding timing_safe_equal
timing_safe_refl xs = (==_iff _ 0).1 (diff_from_self _ xs (xor_self (length xs)))

-- The comparison that looks at every byte of both sides answers true exactly when they are equal.
pub timing_safe_equal_iff : (xs ys : List ℕ) → (timing_safe_equal xs ys ≡ true) ↔ (xs ≡ ys)
unfolding timing_safe_equal
timing_safe_equal_iff xs ys = (
  λ h.
      let zeroed = (==_iff _ 0).0 h in
      let lengths = xor-eq-zero _ _ (diff_from-eq-zero _ xs ys zeroed) in
      diff_from_eq _ xs ys lengths zeroed,
  λ e. rw e (timing_safe_refl ys),
)
