-- ===== src/Util/Ip.antt =====
-- The IPv4 half of src/util/ip.js: which addresses are public destinations.
use smart_access_gateway.Prelude.{
  ℕ, zero, suc, ◌+◌, ◌-◌, ◌*◌, ◌^◌, ◌≤◌, ◌<◌, ◌≡◌, ◌⊎◌, inl, inr, Bool, true, false, not, ◌&&◌,
  ◌||◌, Option, none, some, List, [], ◌∷◌, arith, length, get_or, any, all, ltb, leb, ◌==◌, nat_eq,
  string_eq, if◌then◌else◌,
}
use smart_access_gateway.Util.Bytes.{Text}
use smart_access_gateway.Util.Text.{split}

abbrev pub is_decimal : ℕ → Bool
is_decimal c = leb b'0' c && leb c b'9'

-- `Number(part)` of a part of decimal digits.
abbrev pub decimal_from : ℕ → Text → ℕ
decimal_from n [] = n
decimal_from n (c ∷ cs) = decimal_from (n * 10 + (c - b'0')) cs

-- `/^\d{1,3}$/.test(part) && Number(part) <= 255`
abbrev pub is_octet : Text → Bool
is_octet part =
    all is_decimal part
    && leb 1 (length part)
    && leb (length part) 3
    && leb (decimal_from 0 part) 255

abbrev pub number_of : ℕ → List Text → ℕ
number_of n [] = n
number_of n (part ∷ parts) = number_of (n * 256 + decimal_from 0 part) parts

-- `ipv4Number`
unfoldable pub ipv4_number : Text → Option ℕ
ipv4_number value =
    let parts = split b'.' value in
    if not (length parts == 4) || not (all is_octet parts) then none else some (number_of 0 parts)

-- `inV4Range`
abbrev pub in_v4_range : ℕ → ℕ → ℕ → Bool
in_v4_range number base bits = leb base number && ltb number (base + 2 ^ (32 - bits))

abbrev pub v4 : ℕ → ℕ → ℕ → ℕ → ℕ
v4 a b c d = ((a * 256 + b) * 256 + c) * 256 + d

-- The table `blocked`, with each base as its number.
abbrev pub blocked : List (ℕ × ℕ)
blocked =
    (v4 0 0 0 0, 8)
    ∷ (v4 10 0 0 0, 8)
    ∷ (v4 100 64 0 0, 10)
    ∷ (v4 127 0 0 0, 8)
    ∷ (v4 169 254 0 0, 16)
    ∷ (v4 172 16 0 0, 12)
    ∷ (v4 192 0 0 0, 24)
    ∷ (v4 192 0 2 0, 24)
    ∷ (v4 192 88 99 0, 24)
    ∷ (v4 192 168 0 0, 16)
    ∷ (v4 198 18 0 0, 15)
    ∷ (v4 198 51 100 0, 24)
    ∷ (v4 203 0 113 0, 24)
    ∷ (v4 224 0 0 0, 4)
    ∷ (v4 240 0 0 0, 4)
    ∷ []

abbrev pub is_blocked : ℕ → Bool
is_blocked number = any (λ r. in_v4_range number r.0 r.1) blocked

abbrev pub not_blocked : Option ℕ → Bool
not_blocked none = false
not_blocked (some number) = not (is_blocked number)

-- `isPublicIpv4`
unfoldable pub is_public_ipv4 : Text → Bool
is_public_ipv4 value = not_blocked (ipv4_number value)

-- Where no element passes a test, the one at an index does not.
any-false :
    (p : ℕ × ℕ → Bool) (xs : List (ℕ × ℕ)) (i : ℕ)
    → any p xs ≡ false
    → (p (get_or xs i (0, 33)) ≡ false) ⊎ (length xs ≤ i)
any-false p [] i h = inr (omega arith)
any-false p (x ∷ xs) zero h = inl (ground arith)
any-false p (x ∷ xs) (suc i) h = elim (any-false p xs i (ground arith)) [
  | inl k ↦ inl k
  | inr k ↦ inr (omega (arith, k))
]

in_no_range :
    (number i : ℕ)
    → is_blocked number ≡ false
    → i < 15
    → in_v4_range number (get_or blocked i (0, 33)).0 (get_or blocked i (0, 33)).1 ≡ false
in_no_range number i free lt = elim (any-false (λ r. in_v4_range number r.0 r.1) blocked i free) [
  | inl k ↦ k
  | inr k ↦ absurd (omega (arith, k, lt))
]

-- A public address lies in none of the loopback, link-local and private networks.
pub is_public_ipv4_outside :
    (value : Text) (number : ℕ)
    → ipv4_number value ≡ some number
    → is_public_ipv4 value ≡ true
    → (in_v4_range number (v4 127 0 0 0) 8 ≡ false)
      × (in_v4_range number (v4 169 254 0 0) 16 ≡ false)
      × (in_v4_range number (v4 10 0 0 0) 8 ≡ false)
      × (in_v4_range number (v4 172 16 0 0) 12 ≡ false)
      × (in_v4_range number (v4 192 168 0 0) 16 ≡ false)
unfolding is_public_ipv4
is_public_ipv4_outside value number e h =
    let free : is_blocked number ≡ false = negated (is_blocked number) (rw e at h) in
    (
      in_no_range number 3 free (omega arith),
      in_no_range number 4 free (omega arith),
      in_no_range number 1 free (omega arith),
      in_no_range number 5 free (omega arith),
      in_no_range number 9 free (omega arith),
    )
  where
    negated : (b : Bool) → not b ≡ true → b ≡ false
    negated b k = ground arith
