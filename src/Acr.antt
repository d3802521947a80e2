-- ===== src/Acr.antt =====
-- src/acr.js: the strength of an authentication, and whether it meets a relying party's demand.
pub mod Demands
pub mod Upstream
use smart_access_gateway.Prelude.{
  ℕ, zero, suc, min, String, Bool, true, not, ◌&&◌, ◌||◌, Option, none, some, List, [], ◌∷◌, ◌++◌,
  length, take, keep, any, includes, uniq_from, ltb, leb, ◌==◌, nat_eq, string_eq, if◌then◌else◌,
}
use smart_access_gateway.Util.Bytes.{Text, codes}
use smart_access_gateway.Util.Text.{text_Eq, to_lower}

-- `ACR`
abbrev pub otp_acr : String
otp_acr = "urn:sag:acr:email-otp"

abbrev pub local_password_acr : String
local_password_acr = "urn:sag:acr:local-password"

abbrev pub local_mfa_acr : String
local_mfa_acr = "urn:sag:acr:local-mfa"

abbrev pub federated_acr : String
federated_acr = "urn:sag:acr:federated"

abbrev pub federated_mfa_acr : String
federated_mfa_acr = "urn:sag:acr:federated-mfa"

abbrev pub mfa_acr : String
mfa_acr = "urn:sag:acr:mfa"

-- `strengthOf`, with the table `ACR_STRENGTH`.
unfoldable pub strength_of : String → ℕ
strength_of acr =
    if acr == otp_acr
    then 1
    else if acr == federated_acr
    then 2
    else if acr == federated_mfa_acr
    then 3
    else 0

-- The test of `satisfies` on one requested value.
unfoldable pub meets : String → String → Bool
meets held want =
    if want == mfa_acr
    then (held == local_mfa_acr || held == federated_mfa_acr)
    else if want == held
    then true
    else if held == local_password_acr
        || held == local_mfa_acr
        || want == local_password_acr
        || want == local_mfa_acr
    then (held == local_mfa_acr && want == local_password_acr)
    else (ltb 0 (strength_of want) && leb (strength_of want) (strength_of held))

unfoldable pub satisfies : String → List String → Bool
satisfies held [] = true
satisfies held (want ∷ requested) = any (meets held) (want ∷ requested)

-- A strength, or `Infinity`.
pub data Bound : Type 0 where
  finite : ℕ → Bound
  infinite : Bound

-- `want === ACR.MFA ? ACR.FEDERATED_MFA : want`
abbrev pub routed : String → String
routed want = if want == mfa_acr then federated_mfa_acr else want

-- `Math.min` of a strength that is known, that is not zero, and of the others.
abbrev pub least_of : ℕ → Bound → Bound
least_of zero b = b
least_of (suc n) infinite = finite (suc n)
least_of (suc n) (finite m) = finite (min (suc n) m)

-- `Math.min(...known)`, and `Infinity` without a known strength.
unfoldable pub least_known : List String → Bound
least_known [] = infinite
least_known (want ∷ requested) = least_of (strength_of (routed want)) (least_known requested)

unfoldable pub minimum_strength_required : List String → Bound
minimum_strength_required [] = finite 0
minimum_strength_required (want ∷ requested) = least_known (want ∷ requested)

abbrev pub exceeds_otp : Bound → Bool
exceeds_otp (finite n) = ltb 1 n
exceeds_otp infinite = true

unfoldable pub requires_federation : List String → Bool
requires_federation requested = exceeds_otp (minimum_strength_required requested)

-- The `amr` claim of an upstream: absent or of another type, one string, or an array, in which a
-- value that is no string is `none`.
pub data AmrClaim : Type 0 where
  other_claim : AmrClaim
  one_value : Text → AmrClaim
  values : List (Option Text) → AmrClaim

unfoldable pub strings_in : List (Option Text) → List Text
strings_in [] = []
strings_in (none ∷ vs) = strings_in vs
strings_in (some v ∷ vs) = v ∷ strings_in vs

unfoldable pub all_values : AmrClaim → List Text
all_values other_claim = []
all_values (one_value v) = v ∷ []
all_values (values vs) = strings_in vs

-- `MFA_HINTS`
abbrev pub mfa_hints : List Text
mfa_hints =
    codes "mfa"
    ∷ codes "otp"
    ∷ codes "sms"
    ∷ codes "swk"
    ∷ codes "hwk"
    ∷ codes "fido"
    ∷ codes "phr"
    ∷ codes "phrh"
    ∷ codes "mca"
    ∷ codes "face"
    ∷ codes "fpt"
    ∷ []

abbrev pub federated_amr : Text
federated_amr = codes "fed"

abbrev pub mfa_amr : Text
mfa_amr = codes "mfa"

abbrev pub is_hint : Text → Bool
is_hint v = includes (to_lower v) mfa_hints

-- The test of `acrFromUpstream` for a second factor.
unfoldable pub shows_mfa : List Text → Bool
shows_mfa vs = any is_hint vs || ltb 1 (length vs)

abbrev pub is_short : Text → Bool
is_short v = leb (length v) 32

-- `normalised`, with the method that stands for a second factor.
unfoldable pub normalised : List Text → List Text
normalised vs =
    let amr = federated_amr ∷ take 16 (keep is_short vs) in
    if shows_mfa vs && not (includes mfa_amr amr) then amr ++ (mfa_amr ∷ []) else amr

pub record Context : Type 0 where
  pub acr : String
  pub amr : List Text

unfoldable pub acr_from_upstream : AmrClaim → Context
acr_from_upstream claim =
    let vs = all_values claim in
    record {
      acr = if shows_mfa vs then federated_mfa_acr else federated_acr;
      amr = uniq_from [] (normalised vs);
    }

-- `acrForOtp`
abbrev pub acr_for_otp : Context
acr_for_otp = record { acr = otp_acr; amr = codes "otp" ∷ codes "email" ∷ [] }

-- `acrForLocal`; no second factor, or an empty name of one, is `none`.
abbrev pub acr_for_local : Option Text → Context
acr_for_local none = record { acr = local_password_acr; amr = codes "pwd" ∷ [] }
acr_for_local (some factor) = record {
  acr = local_mfa_acr;
  amr =
      codes "pwd"
      ∷ (if factor == codes "totp" then codes "otp" else codes "recovery")
      ∷ mfa_amr
      ∷ [];
}
