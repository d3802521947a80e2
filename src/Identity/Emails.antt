-- ===== src/Identity/Emails.antt =====
-- Addresses: normalising is stable, and a plus tag names the mailbox behind it.
use smart_access_gateway.Prelude.{
  ℕ, suc, ◌≡◌, refl, sym, ap, ◌∙◌, ◌≢◌, ◌⊎◌, inl, inr, false, Option, none, some, [], ◌∷◌, ◌++◌,
  arith, length, ◌==◌, ==_iff, nat_eq, string_eq, Bool-cases, Option-cases, length-eq-zero_false,
}
use smart_access_gateway.Util.Bytes.{Text}
use smart_access_gateway.Util.Text.{lower_char, to_lower, to_lower_idempotent, IsFree}
use smart_access_gateway.Identity.{
  is_space, trim_start, trim_end, trim, split_last, split_first, normalise_email, strip_plus_tag,
  starts_quoted, strip_local,
}

split_last-free : (sep : ℕ) (b : Text) → IsFree sep b → split_last sep b ≡ none
unfolding split_last
split_last-free sep [] h = refl
split_last-free sep (c ∷ b) h = ground (arith, split_last-free sep b h.1)

split_last-append :
    (sep : ℕ) (a b : Text) → IsFree sep b → split_last sep (a ++ (sep ∷ b)) ≡ some (a, b)
unfolding split_last
split_last-append sep [] b h = rw (split_last-free sep b h, (==_iff sep sep).1 refl)
split_last-append sep (c ∷ a) b h = rw (split_last-append sep a b h)

split_first-append :
    (sep : ℕ) (a b : Text) → IsFree sep a → split_first sep (a ++ (sep ∷ b)) ≡ some (a, b)
unfolding split_first
split_first-append sep [] b h = rw ((==_iff sep sep).1 refl)
split_first-append sep (c ∷ a) b h = ground (arith, split_first-append sep a b h.1)

append_tag : (a t d : Text) → a ++ (b'+' ∷ (t ++ (b'@' ∷ d))) ≡ (a ++ (b'+' ∷ t)) ++ (b'@' ∷ d)
append_tag [] t d = refl
append_tag (c ∷ a) t d = ap (◌∷◌ c) (append_tag a t d)

-- A tag is dropped with its plus sign, where the local part before it is not empty, not quoted and
-- without a plus sign, and the domain holds no at sign.
pub strip_plus_tag-tagged :
    (local tag domain : Text)
    → local ≢ []
    → starts_quoted local ≡ false
    → IsFree b'+' local
    → IsFree b'@' domain
    → strip_plus_tag (local ++ (b'+' ∷ (tag ++ (b'@' ∷ domain)))) ≡ local ++ (b'@' ∷ domain)
unfolding strip_plus_tag
strip_plus_tag-tagged local tag domain ne quoted plain free = rw (append_tag local tag domain) (
    rw (split_last-append b'@' (local ++ (b'+' ∷ tag)) domain free, strip_plus_tag)
      (rw (nonempty local, unquoted local ne quoted)
        (rw (split_first-append b'+' local tag plain, length-eq-zero_false local ne, strip_local))))
  where
    nonempty : (a : Text) → (length (a ++ (b'+' ∷ tag)) == 0) ≡ false
    nonempty [] = ground arith
    nonempty (c ∷ a) = ground arith

    unquoted :
        (a : Text) → a ≢ [] → starts_quoted a ≡ false → starts_quoted (a ++ (b'+' ∷ tag)) ≡ false
    unquoted [] h e = absurd (h refl)
    unquoted (c ∷ a) h e = e

IsFree-of_missing : (sep : ℕ) (ds : Text) → split_last sep ds ≡ none → IsFree sep ds
unfolding split_last
IsFree-of_missing sep [] e = tt
IsFree-of_missing sep (d ∷ ds) e =
    (ground (arith, ==_iff d sep), IsFree-of_missing sep ds (ground arith))

-- What `split_last` finds.
split_last_sound :
    (sep : ℕ) (text a b : Text)
    → split_last sep text ≡ some (a, b)
    → (text ≡ a ++ (sep ∷ b)) × IsFree sep b
unfolding split_last
split_last_sound sep [] a b h = cc
split_last_sound sep (c ∷ cs) a b h = elim (Option-cases (split_last sep cs)) [
  | inl missing ↦ elim (Bool-cases (c == sep)) [
    | inl same ↦
        let (e, f) = pair_inj (rw (missing, split_last, same) at h) in
        (
          rw (← e, ← f) (ap (λ x. x ∷ cs) ((==_iff c sep).0 same)),
          rw (← f) (IsFree-of_missing sep cs missing),
        )
    | inr other ↦ absurd (ground (arith, rw (missing, split_last, other) at h))
  ]
  | inr ((a', b'), found) ↦
      let (split_up, free) = split_last_sound sep cs a' b' found in
      let (e, f) = pair_inj (rw (found, split_last) at h) in
      (rw (← e, ← f) (ap (◌∷◌ c) split_up), rw (← f) free)
]
  where
    pair_inj :
        {p q r t : Text}
        → ◌≡◌ {A = Option (Text × Text)} (some (p, q)) (some (r, t))
        → (p ≡ r) × (q ≡ t)
    pair_inj e = ground arith

to_lower-append : (a b : Text) → to_lower (a ++ b) ≡ to_lower a ++ to_lower b
unfolding to_lower
to_lower-append [] b = refl
to_lower-append (c ∷ a) b = ap (◌∷◌ (lower_char c)) (to_lower-append a b)

to_lower-IsFree : (b : Text) → IsFree b'@' b → IsFree b'@' (to_lower b)
unfolding to_lower
to_lower-IsFree [] h = tt
to_lower-IsFree (c ∷ b) h = (λ e. h.0 (ground arith), to_lower-IsFree b h.1)

length-to_lower : (a : Text) → length (to_lower a) ≡ length a
unfolding to_lower
length-to_lower [] = refl
length-to_lower (c ∷ a) = ap suc (length-to_lower a)

space-lower : (c : ℕ) → is_space (lower_char c) ≡ is_space c
space-lower c = ground arith

trim_start-to_lower : (a : Text) → trim_start (to_lower a) ≡ to_lower (trim_start a)
unfolding trim_start to_lower
trim_start-to_lower [] = refl
trim_start-to_lower (c ∷ a) = ground (arith, trim_start-to_lower a)

trim_end-to_lower : (a : Text) → trim_end (to_lower a) ≡ to_lower (trim_end a)
unfolding trim_end to_lower
trim_end-to_lower [] = refl
trim_end-to_lower (c ∷ a) = ground (arith, trim_end-to_lower a)

trim_end_idempotent : (a : Text) → trim_end (trim_end a) ≡ trim_end a
unfolding trim_end
trim_end_idempotent [] = refl
trim_end_idempotent (c ∷ a) = ground (arith, trim_end_idempotent a)

trim_start-trim_end :
    (c : ℕ) (a : Text) → is_space c ≡ false → trim_start (trim_end (c ∷ a)) ≡ trim_end (c ∷ a)
unfolding trim_end trim_start
trim_start-trim_end c a h = ground arith

trim_start-cases :
    (a : Text)
    → (trim_start a ≡ []) ⊎ ((c : ℕ) × (b : Text) × (trim_start a ≡ c ∷ b) × (is_space c ≡ false))
unfolding trim_start
trim_start-cases [] = inl refl
trim_start-cases (c ∷ a) = elim (Bool-cases (is_space c)) [
  | inl blank ↦ rw blank (trim_start-cases a)
  | inr solid ↦ rw solid (inr (c, a, refl, solid))
]

trim_idempotent : (a : Text) → trim (trim a) ≡ trim a
unfolding trim
trim_idempotent a = elim (trim_start-cases a) [
  | inl empty ↦ rw empty (unfold trim_end trim_start in refl)
  | inr (c, b, e, solid) ↦ rw e (rw (trim_start-trim_end c b solid) (trim_end_idempotent (c ∷ b)))
]

trim-to_lower : (a : Text) → trim (to_lower a) ≡ to_lower (trim a)
unfolding trim
trim-to_lower a = rw (trim_start-to_lower a) (trim_end-to_lower (trim_start a))

trim_lowered : (input : Text) → trim (to_lower (trim input)) ≡ to_lower (trim input)
trim_lowered input = rw (trim-to_lower (trim input), trim_idempotent input)

-- The address that is built of two parts that are there.
normalise-parts :
    (email local domain : Text)
    → trim email ≡ email
    → email ≡ to_lower local ++ (b'@' ∷ to_lower domain)
    → local ≢ []
    → domain ≢ []
    → IsFree b'@' domain
    → normalise_email email ≡ some email
unfolding normalise_email
normalise-parts email local domain trimmed parts l d free =
    let low = to_lower local in
    let dom = to_lower domain in
    let found : split_last b'@' (trim email) ≡ some (low, dom) =
      ap (split_last b'@') (trimmed ∙ parts)
      ∙ split_last-append b'@' low dom (to_lower-IsFree domain free) in
    rw (found, normalise_email)
      (rw
        (
          length-to_lower local,
          length-to_lower domain,
          length-eq-zero_false local l,
          length-eq-zero_false domain d,
          to_lower_idempotent local,
          to_lower_idempotent domain,
        )
        (ap some (sym parts)))

-- A normalised address normalises to itself.
pub normalise_email_idempotent :
    (input email : Text) → normalise_email input ≡ some email → normalise_email email ≡ some email
unfolding normalise_email
normalise_email_idempotent input email h = elim (Option-cases (split_last b'@' (trim input))) [
  | inl missing ↦ absurd (ground (arith, rw (missing, normalise_email) at h))
  | inr ((local, domain), found) ↦
      let (whole, free) = split_last_sound b'@' (trim input) local domain found in
      let k = rw (found, normalise_email) at h in
      let parts : email ≡ to_lower local ++ (b'@' ∷ to_lower domain) = ground arith in
      let lowered : email ≡ to_lower (trim input) =
        parts
        ∙ sym (ap to_lower whole ∙ to_lower-append local (b'@' ∷ domain) ∙ at_sign local domain) in
      normalise-parts email local domain (rw lowered (trim_lowered input)) parts (ground arith)
        (ground arith) free
]
  where
    at_sign :
        (local domain : Text)
        → to_lower local ++ to_lower (b'@' ∷ domain) ≡ to_lower local ++ (b'@' ∷ to_lower domain)
    at_sign local domain = unfold to_lower in refl
