-- ===== src/Oauth/Request/Checks.antt =====
-- What each check of the second stage of a request makes sure of.
use mathlib.Core.Path.{subst}
use smart_access_gateway.Prelude.{
  ok_injective, ok_injective, ok_injective, ok_injective, passed, passed, passed, passed, passed, ℕ,
  ◌≤◌, String, ◌≡◌, refl, inl, inr, Bool, true, false, not, ◌&&◌, Option, none, some, List, [], ◌∷◌,
  ◌++◌, arith, ok, length, includes, includes-append, All, ltb, ◌==◌, ==_iff, nat_eq, string_eq,
  if◌then◌else◌, Bool-cases, or_default,
}
use smart_access_gateway.Util.Bytes.{Text, codes}
use smart_access_gateway.Util.Text.{text_Eq, text_eq_iff}
use smart_access_gateway.Oauth.Code.{is_pkce_text}
use smart_access_gateway.Crypto.Jose.Claims.{>>-eq-ok}
use smart_access_gateway.Oauth.Request.{
  response_modes, response_types, check_response_mode, check_response_type, check_permitted,
  words_of, prompt_of, check_alg, add_floor, check_prompt, prompts, each_prompt, check_scope,
  supported_scopes, Challenge, outside, check_challenge,
}

-- The challenge of PKCE: well-formed with `S256`, or absent where the client may do without.
abbrev pub IsProtected : Bool → Option Text → Option Text → Type 0
IsProtected require_pkce none method = (require_pkce ≡ false) × (method ≡ none)
IsProtected require_pkce (some challenge) method =
    (is_pkce_text challenge ≡ true) × (method ≡ some (codes "S256"))

-- Every scope is in the list, where there is one.
abbrev pub Permitted : Option (List Text) → List Text → Type 0
Permitted none scope = Unit
Permitted (some scopes) scope = All (λ s. includes s scopes ≡ true) scope

outside-none :
    (allowed scope : List Text)
    → (length (outside allowed scope) == 0) ≡ true
    → All (λ s. includes s allowed ≡ true) scope
outside-none allowed [] h = tt
outside-none allowed (s ∷ scope) h = elim (Bool-cases (includes s allowed)) [
  | inl held ↦ (held, outside-none allowed scope (rw held at h))
  | inr missing ↦ absurd (stuck missing)
]
  where
    stuck : includes s allowed ≡ false → ⊥
    stuck missing = let k = rw missing at h in ground arith

pub check_challenge_sound :
    (require_pkce : Bool) (given method : Option Text) (c : Challenge)
    → check_challenge require_pkce given method ≡ ok c
    → IsProtected require_pkce c.challenge c.method
unfolding check_challenge
check_challenge_sound true none method c h = cc
check_challenge_sound false none method c h = ground arith
check_challenge_sound require_pkce (some challenge) method c h =
    let s256 = codes "S256" in ground (arith, text_eq_iff (or_default method s256) s256)

abbrev pub IsScoped : Option (List Text) → List Text → Type 0
IsScoped permitted scope =
    (includes (codes "openid") scope ≡ true)
    × All (λ s. includes s supported_scopes ≡ true) scope
    × Permitted permitted scope

pub not-false : {b : Bool} → not b ≡ false → b ≡ true
not-false {b} h = ground arith

pub check_scope_sound :
    (permitted : Option (List Text)) (given : Option Text) (scope : List Text)
    → check_scope permitted given ≡ ok scope
    → IsScoped permitted scope
unfolding check_scope
check_scope_sound permitted given scope h =
    let (openid, h1) = passed (not (includes (codes "openid") (words_of given))) _ _ h in
    let (scopes_known, h2) =
      passed (not (length (outside supported_scopes (words_of given)) == 0)) _ _ h1 in
    let (allowed, h3) = >>-eq-ok (check_permitted permitted (words_of given)) _ h2 in
    subst (IsScoped permitted) (ok_injective h3) (
      not-false openid,
      outside-none supported_scopes (words_of given) (not-false scopes_known),
      go permitted allowed,
    )
  where
    go :
        (p : Option (List Text))
        → check_permitted p (words_of given) ≡ ok tt
        → Permitted p (words_of given)
    go none k = tt
    go (some scopes) k = outside-none scopes (words_of given) (ground arith)

each_prompt_sound :
    (ps : List Text) {u : Unit {0}}
    → each_prompt ps ≡ ok u
    → All (λ p. includes p prompts ≡ true) ps
each_prompt_sound [] h = tt
each_prompt_sound (p ∷ ps) h =
    let (member, rest) = passed (not (includes p prompts)) _ _ h in
    (not-false member, each_prompt_sound ps rest)

abbrev pub IsPrompt : List Text → Type 0
IsPrompt ps =
    All (λ p. includes p prompts ≡ true) ps × (includes (codes "none") ps ≡ true → length ps ≤ 1)

pub check_prompt_sound :
    (raw : Option Text) (ps : List Text) → check_prompt raw ≡ ok ps → IsPrompt ps
unfolding check_prompt
check_prompt_sound raw ps h =
    let (each, h1) = >>-eq-ok (each_prompt (prompt_of raw)) _ h in
    let (alone, h2) =
      passed (includes (codes "none") (prompt_of raw) && ltb 1 (length (prompt_of raw))) _ _ h1 in
    subst IsPrompt (ok_injective h2)
      (each_prompt_sound (prompt_of raw) each, λ silent. only_one silent alone)
  where
    only_one : {b : Bool} {n : ℕ} → b ≡ true → (b && ltb 1 n) ≡ false → n ≤ 1
    only_one silent alone = ground arith

includes-add_floor :
    (a : String) (required floor : List String)
    → includes a required ≡ true
    → includes a (add_floor required floor) ≡ true
unfolding add_floor
includes-add_floor a required [] h = h
includes-add_floor a required (b ∷ floor) h = elim (Bool-cases (includes b required)) [
  | inl held ↦ rw held (includes-add_floor a required floor h)
  | inr new ↦ rw new (
      includes-add_floor a (required ++ (b ∷ [])) floor
        (rw (includes-append a required (b ∷ [])) (rw h refl)))
]

includes-with :
    (b : String) (required : List String)
    → includes b (if includes b required then required else required ++ (b ∷ [])) ≡ true
includes-with b required = elim (Bool-cases (includes b required)) [
  | inl held ↦ rw held held
  | inr new ↦
      rw new (rw (includes-append b required (b ∷ [])) (rw new (ground (arith, ==_iff b b))))
]

-- Everything of the floor is there at the end.
pub add_floor-All :
    (required floor result : List String)
    → add_floor required floor ≡ result
    → All (λ a. includes a result ≡ true) floor
unfolding add_floor
add_floor-All required [] result h = tt
add_floor-All required (b ∷ floor) result h =
    let next = if includes b required then required else required ++ (b ∷ []) in
    (
      rw (← h) (includes-add_floor b next floor (includes-with b required)),
      add_floor-All next floor result h,
    )

abbrev pub IsAlg : Option Text → Option Text → Type 0
IsAlg none used = Unit
IsAlg (some registered) used = used ≡ some registered

pub check_alg_sound :
    (registered requested used : Option Text)
    → check_alg registered requested ≡ ok used
    → IsAlg registered used
unfolding check_alg
check_alg_sound none requested used h = tt
check_alg_sound (some []) requested used h = cc
check_alg_sound (some (c ∷ cs)) none used h = cc
check_alg_sound (some (c ∷ cs)) (some r) used h = ground arith

pub check_response_type_sound :
    (given : Option Text) (type : Text)
    → check_response_type given ≡ ok type
    → includes type response_types ≡ true
unfolding check_response_type
check_response_type_sound none type h = cc
check_response_type_sound (some given) type h =
    let (member, rest) = passed (not (includes given response_types)) _ _ h in
    rw (← ok_injective rest) (not-false member)

pub check_response_mode_sound :
    (given : Option Text) (mode : Text)
    → check_response_mode given ≡ ok mode
    → includes mode response_modes ≡ true
unfolding check_response_mode
check_response_mode_sound given mode h =
    let (member, rest) =
      passed (not (includes (or_default given (codes "query")) response_modes)) _ _ h in
    rw (← ok_injective rest) (not-false member)
