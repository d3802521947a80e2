-- ===== src/Profile.antt =====
-- src/profile.js: which profile claims are taken from an upstream and given to a relying party. The
-- guesses from an address and the drawn avatar are left out.
pub mod Relayed
use smart_access_gateway.Prelude.{
  Bool, true, false, not, ◌&&◌, Option, none, some, List, [], ◌∷◌, length, take, includes, ltb,
  ◌==◌, nat_eq, string_eq, if◌then◌else◌,
}
use smart_access_gateway.Util.Bytes.{Text, codes}
use smart_access_gateway.Util.Text.{text_Eq, to_lower, starts_with}
use smart_access_gateway.Crypto.Jose.{TextClaim, absent, text, other_value}

pub record ProfileConfig : Type 0 where
  pub claims : List Text
  pub show_picture : Bool

-- `PROFILE_CLAIMS` of config.js
abbrev pub profile_claims : List Text
profile_claims =
    codes "name"
    ∷ codes "given_name"
    ∷ codes "family_name"
    ∷ codes "middle_name"
    ∷ codes "nickname"
    ∷ codes "preferred_username"
    ∷ codes "picture"
    ∷ codes "locale"
    ∷ codes "zoneinfo"
    ∷ []

abbrev pub picture : Text
picture = codes "picture"

unfoldable pub permitted : ProfileConfig → Text → Bool
permitted config claim =
    includes claim config.claims && not (claim == picture && not config.show_picture)

-- A claims object: its fields that are text, in order, and the two others that the code keeps.
pub record Held : Type 0 where
  pub fields : List (Text × Text)
  pub name_inferred : Bool
  pub upstream_acr : Option Text

unfoldable pub is_https : Text → Bool
is_https value = starts_with (to_lower value) (codes "https://")

-- What is kept of one claim, that is permitted.
unfoldable pub kept_value : Text → TextClaim → Option Text
kept_value claim absent = none
kept_value claim (other_value a b) = none
kept_value claim (text []) = none
kept_value claim (text (c ∷ value)) =
    if claim == picture && not (is_https (c ∷ value))
    then none
    else if ltb 512 (length (c ∷ value))
    then (if claim == picture then none else some (take 512 (c ∷ value)))
    else some (c ∷ value)

abbrev pub with_field : Text → Option Text → List (Text × Text) → List (Text × Text)
with_field claim none fields = fields
with_field claim (some value) fields = (claim, value) ∷ fields

-- The loop of `relayedClaims`, over the claims that the program knows.
unfoldable pub relay : ProfileConfig → (Text → TextClaim) → List Text → List (Text × Text)
relay config given [] = []
relay config given (claim ∷ claims) =
    let rest = relay config given claims in
    if permitted config claim then with_field claim (kept_value claim (given claim)) rest else rest

abbrev pub capped_acr : Option Text → Option Text
capped_acr none = none
capped_acr (some []) = none
capped_acr (some (c ∷ acr)) = some (take 128 (c ∷ acr))

abbrev pub if_held : List (Text × Text) → Option Text → Option Held
if_held [] none = none
if_held fields acr = some (record { fields = fields; name_inferred = false; upstream_acr = acr })

-- `relayedClaims`
unfoldable pub relayed_claims : ProfileConfig → (Text → TextClaim) → Option Text → Option Held
relayed_claims config given upstream_acr =
    if_held (relay config given profile_claims) (capped_acr upstream_acr)

-- `held[claim]`
unfoldable pub field_of : List (Text × Text) → Text → Option Text
field_of [] claim = none
field_of ((name, value) ∷ fields) claim =
    let rest = field_of fields claim in if name == claim then some value else rest

unfoldable pub emit : ProfileConfig → List (Text × Text) → List Text → List (Text × Text)
emit config held [] = []
emit config held (claim ∷ claims) =
    let rest = emit config held claims in
    if permitted config claim then with_field claim (field_of held claim) rest else rest

-- What goes out: the claims, and the mark of a guessed name.
pub record Outbound : Type 0 where
  pub fields : List (Text × Text)
  pub name_inferred : Bool

abbrev pub is_some : Option Text → Bool
is_some none = false
is_some (some v) = true

-- `outboundClaims`
unfoldable pub outbound_claims : ProfileConfig → Held → Outbound
outbound_claims config held =
    let fields = emit config held.fields profile_claims in
    record {
      fields = fields;
      name_inferred = held.name_inferred && is_some (field_of fields (codes "name"));
    }
