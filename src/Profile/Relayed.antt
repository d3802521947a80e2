-- ===== src/Profile/Relayed.antt =====
-- What may pass from an upstream to a relying party.
use mathlib.Core.Path.{subst}
use smart_access_gateway.Prelude.{
  ℕ, zero, suc, ◌≤◌, ◌<◌, ◌≡◌, refl, sym, ap, ◌∙◌, inl, inr, Bool, true, false, not, ◌&&◌, Option,
  none, some, List, [], ◌∷◌, arith, length, take, all, length-take, All, ltb, ◌==◌, nat_eq,
  string_eq, if◌then◌else◌, Bool-cases,
}
use smart_access_gateway.Util.Bytes.{Text}
use smart_access_gateway.Util.Text.{text_Eq, text_eq_iff}
use smart_access_gateway.Crypto.Jose.{TextClaim, absent, text, other_value}
use smart_access_gateway.Profile.{
  ProfileConfig, profile_claims, picture, permitted, Held, is_https, kept_value, with_field, relay,
  capped_acr, if_held, relayed_claims,
}

take-whole : (n : ℕ) (xs : Text) → length xs ≤ n → take n xs ≡ xs
take-whole zero [] h = refl
take-whole zero (x ∷ xs) h = absurd (omega arith)
take-whole (suc n) [] h = refl
take-whole (suc n) (x ∷ xs) h = ap (◌∷◌ x) (take-whole n xs (omega arith))

-- A claim that may be carried: permitted, not empty, at most 512 characters, an https address where
-- it is a picture, and the start of what the upstream gave under that name.
pub record IsCarried (config : ProfileConfig) (given : Text → TextClaim) (field : Text × Text)
    : Type 0 where
  pub allowed : permitted config field.0 ≡ true
  pub filled : 0 < length field.1
  pub short : length field.1 ≤ 512
  pub address : field.0 ≡ picture → is_https field.1 ≡ true
  pub source : (whole : Text) × (given field.0 ≡ text whole) × (field.1 ≡ take 512 whole)

abbrev IsKept : Text → Text → Text → Type 0
IsKept claim whole value =
    (0 < length value)
    × (length value ≤ 512)
    × (claim ≡ picture → is_https value ≡ true)
    × (value ≡ take 512 whole)

le_of_not_ltb : (a b : ℕ) → ltb a b ≡ false → b ≤ a
le_of_not_ltb a b h = ground arith

cut_bounds :
    (whole : Text)
    → 0 < length whole
    → (0 < length (take 512 whole)) × (length (take 512 whole) ≤ 512)
cut_bounds whole filled =
    let cut = length-take 512 whole in (omega (arith, cut), omega (arith, cut))

-- The three tests of the loop, on a value that is not empty: a picture is kept whole or not at all.
whole_or_cut :
    (whole value : Text) (pic https : Bool)
    → 0 < length whole
    → (if pic && not https
        then none
        else if ltb 512 (length whole)
        then (if pic then none else some (take 512 whole))
        else some whole)
      ≡ some value
    → (0 < length value)
      × (length value ≤ 512)
      × (pic ≡ true → (https ≡ true) × (value ≡ whole))
      × (value ≡ take 512 whole)
whole_or_cut whole value true false filled h = cc
whole_or_cut whole value true true filled h = elim (Bool-cases (ltb 512 (length whole))) [
  | inl long ↦ absurd (none-ne-some (rw long at h))
  | inr fits ↦
      let same : whole ≡ value = option_inj (rw fits at h) in
      let le = le_of_not_ltb 512 (length whole) fits in
      rw (← same) (filled, le, λ e. (refl, refl), sym (take-whole 512 whole le))
]
  where
    none-ne-some : ◌≡◌ {A = Option Text} none (some value) → ⊥
    none-ne-some e = cc

    option_inj : ◌≡◌ {A = Option Text} (some whole) (some value) → whole ≡ value
    option_inj e = cc
whole_or_cut whole value false https filled h = elim (Bool-cases (ltb 512 (length whole))) [
  | inl long ↦
      let same : take 512 whole ≡ value = option_inj (rw long at h) in
      let bounds = cut_bounds whole filled in rw (← same) (bounds.0, bounds.1, λ e. absurd cc, refl)
  | inr fits ↦
      let same : whole ≡ value = option_inj (rw fits at h) in
      let le = le_of_not_ltb 512 (length whole) fits in
      rw (← same) (filled, le, λ e. absurd cc, sym (take-whole 512 whole le))
]
  where
    option_inj : {a b : Text} → ◌≡◌ {A = Option Text} (some a) (some b) → a ≡ b
    option_inj e = cc

kept_value_sound :
    (claim : Text) (given : TextClaim) (value : Text)
    → kept_value claim given ≡ some value
    → (whole : Text) × (given ≡ text whole) × IsKept claim whole value
unfolding kept_value
kept_value_sound claim absent value h = cc
kept_value_sound claim (other_value a b) value h = cc
kept_value_sound claim (text []) value h = cc
kept_value_sound claim (text (c ∷ cs)) value h =
    let (filled, short, address, cut) =
      whole_or_cut (c ∷ cs) value (claim == picture) (is_https (c ∷ cs)) (ground arith) h in
    (
      c ∷ cs,
      refl,
      (
        filled,
        short,
        λ e. let (https, same) = address ((text_eq_iff claim picture).1 e) in rw same https,
        cut,
      ),
    )

relay-All :
    (config : ProfileConfig) (given : Text → TextClaim) (claims : List Text)
    → All (IsCarried config given) (relay config given claims)
unfolding relay
relay-All config given [] = tt
relay-All config given (claim ∷ claims) = elim (Bool-cases (permitted config claim)) [
  | inl p ↦ rw p (added p _ (relay-All config given claims) (kept_value claim (given claim)) refl)
  | inr p ↦ rw p (relay-All config given claims)
]
  where
    added :
        permitted config claim ≡ true
        → (rest : List (Text × Text)) → All (IsCarried config given) rest
        → (kept : Option Text) → kept_value claim (given claim) ≡ kept
        → All (IsCarried config given) (with_field claim kept rest)
    added p rest all none e = all
    added p rest all (some value) e =
        let (whole, from, k) = kept_value_sound claim (given claim) value e in
        (
          record {
            allowed = p;
            filled = k.0;
            short = k.1;
            address = k.2;
            source = (whole, from, k.3);
          },
          all,
        )

-- Whatever an upstream sends, the claims that are kept are ones that this deployment permits, are
-- not empty, are at most 512 characters long, start as the upstream's own value of that name does,
-- and are https addresses where they are pictures; the upstream's acr is cut at 128 characters.
pub relayed_claims_sound :
    (config : ProfileConfig) (given : Text → TextClaim) (acr : Option Text) (held : Held)
    → relayed_claims config given acr ≡ some held
    → All (IsCarried config given) held.fields
      × ((a : Text) → held.upstream_acr ≡ some a → length a ≤ 128)
unfolding relayed_claims
relayed_claims_sound config given acr held h =
    go (relay config given profile_claims) (relay-All config given profile_claims) acr h
  where
    cut : (acr : Option Text) (a : Text) → capped_acr acr ≡ some a → length a ≤ 128
    cut none a e = cc
    cut (some []) a e = cc
    cut (some (c ∷ cs)) a e = ground (arith, length-take 128 (c ∷ cs))

    short :
        (fields : List (Text × Text))
        → All (IsCarried config given) fields
        → (acr : Option Text)
        → some (record { fields = fields; name_inferred = false; upstream_acr = capped_acr acr })
          ≡ some held
        → All (IsCarried config given) held.fields
          × ((a : Text) → held.upstream_acr ≡ some a → length a ≤ 128)
    short fields each acr k =
        let of_fields : fields ≡ held.fields = cc in
        let of_acr : capped_acr acr ≡ held.upstream_acr = cc in
        (subst (All (IsCarried config given)) of_fields each, λ a e. cut acr a (of_acr ∙ e))

    go :
        (fields : List (Text × Text))
        → All (IsCarried config given) fields
        → (acr : Option Text) → if_held fields (capped_acr acr) ≡ some held
        → All (IsCarried config given) held.fields
          × ((a : Text) → held.upstream_acr ≡ some a → length a ≤ 128)
    go [] each none k = cc
    go [] each (some []) k = cc
    go [] each (some (c ∷ cs)) k = short [] each (some (c ∷ cs)) k
    go (f ∷ fields) each none k = short (f ∷ fields) each none k
    go (f ∷ fields) each (some []) k = short (f ∷ fields) each (some []) k
    go (f ∷ fields) each (some (c ∷ cs)) k = short (f ∷ fields) each (some (c ∷ cs)) k
