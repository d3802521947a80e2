-- ===== src/Identity.antt =====
-- src/identity.js: what counts as the same person, and the input of a subject identifier. The key
-- derivation is an argument of what uses the input.
pub mod Emails
pub mod Subjects
use smart_access_gateway.Prelude.{
  ℕ, Bool, false, not, ◌&&◌, ◌||◌, Option, none, some, List, [], ◌∷◌, ◌++◌, length, any, all, ltb,
  leb, ◌==◌, nat_eq, string_eq, if◌then◌else◌, or_default,
}
use smart_access_gateway.Util.Bytes.{Text, codes}
use smart_access_gateway.Util.Text.{text_Eq, to_lower, split}

-- The ASCII members of `\s`.
abbrev pub is_space : ℕ → Bool
is_space c = leb 9 c && leb c 13 || c == 32

unfoldable pub trim_start : Text → Text
trim_start [] = []
trim_start (c ∷ cs) = let rest = trim_start cs in if is_space c then rest else c ∷ cs

unfoldable pub trim_end : Text → Text
trim_end [] = []
trim_end (c ∷ cs) = elim (trim_end cs) [
  | [] ↦ if is_space c then [] else c ∷ []
  | d ∷ more ↦ c ∷ d ∷ more
]

unfoldable pub trim : Text → Text
trim text = trim_end (trim_start text)

-- What stands before and after the last, and the first, occurrence of a character.
unfoldable pub split_last : ℕ → Text → Option (Text × Text)
split_last sep [] = none
split_last sep (c ∷ cs) = elim (split_last sep cs) [
  | some (before, after) ↦ some (c ∷ before, after)
  | none ↦ if c == sep then some ([], cs) else none
]

unfoldable pub split_first : ℕ → Text → Option (Text × Text)
split_first sep [] = none
split_first sep (c ∷ cs) =
    let later : Option (Text × Text) = elim (split_first sep cs) [
      | some (before, after) ↦ some (c ∷ before, after)
      | none ↦ none
    ] in
    if c == sep then some ([], cs) else later

-- `normaliseEmail`
unfoldable pub normalise_email : Text → Option Text
normalise_email input = elim (split_last b'@' (trim input)) [
  | none ↦ none
  | some (local, domain) ↦
      if length local == 0 || length domain == 0
      then none
      else some (to_lower local ++ (b'@' ∷ to_lower domain))
]

abbrev strip_local : Text → Text → Text → Text
strip_local email local domain = elim (split_first b'+' local) [
  | none ↦ email
  | some (before, after) ↦ if length before == 0 then email else before ++ (b'@' ∷ domain)
]

abbrev starts_quoted : Text → Bool
starts_quoted [] = false
starts_quoted (c ∷ cs) = c == b'"'

-- `stripPlusTag`
unfoldable pub strip_plus_tag : Text → Text
strip_plus_tag email = elim (split_last b'@' email) [
  | none ↦ email
  | some (local, domain) ↦
      if length local == 0
      then email
      else if starts_quoted local
      then email
      else strip_local email local domain
]

-- `looksLikeEmail`
abbrev is_label : Text → Bool
is_label label = not (length label == 0) && not (any (λ c. is_space c || c == b'@') label)

abbrev last_is : ℕ → Text → Bool
last_is d [] = false
last_is d (c ∷ []) = c == d
last_is d (c ∷ e ∷ cs) = last_is d (e ∷ cs)

abbrev first_is : ℕ → Text → Bool
first_is d [] = false
first_is d (c ∷ cs) = c == d

looks_like_parts : List Text → Bool
looks_like_parts (local ∷ domain ∷ []) =
    let labels = split b'.' domain in
    if length local == 0 || any is_space local
    then false
    else if length domain == 0
        || ltb 253 (length domain)
        || first_is b'-' domain
        || last_is b'-' domain
    then false
    else not (ltb (length labels) 2) && all is_label labels
looks_like_parts _ = false

unfoldable pub looks_like_email : Text → Bool
unfolding looks_like_parts
looks_like_email text =
    if length text == 0 || ltb 254 (length text) then false else looks_like_parts (split b'@' text)

-- What a client's registration says of subjects; '' stands for a missing client id.
pub record SubjectClient : Type 0 where
  pub client_id : Text
  pub sector_identifier : Option Text
  pub subject_type : Option Text
  pub sanitise_plus_emails : Option Bool

-- `sectorFor`
unfoldable pub sector_for : SubjectClient → Text
sector_for client =
    if length (or_default client.sector_identifier []) == 0
    then codes "client:" ++ client.client_id
    else to_lower (or_default client.sector_identifier [])

-- `identityEmail`, with `sanitisesPlusEmails`.
unfoldable pub identity_email : Bool → Text → SubjectClient → Text
identity_email configured email client =
    if or_default client.sanitise_plus_emails configured then strip_plus_tag email else email

-- `parts.join(' | ')`
unfoldable pub join_parts : List Text → Text
join_parts [] = []
join_parts (part ∷ []) = part
join_parts (part ∷ next ∷ parts) = part ++ (b' ' ∷ b'|' ∷ b' ' ∷ join_parts (next ∷ parts))

abbrev pub subject_type_of : Text → SubjectClient → Text
subject_type_of configured client =
    if length (or_default client.subject_type []) == 0
    then configured
    else or_default client.subject_type []

abbrev pub scope_of : Text → SubjectClient → Text
scope_of configured client =
    if subject_type_of configured client == codes "pairwise"
    then sector_for client
    else codes "public"

-- The input that `subjectForPrincipal` derives a subject from.
unfoldable pub subject_input : Text → List Text → SubjectClient → Text
subject_input configured principal client =
    join_parts
      (codes "sub" ∷ subject_type_of configured client ∷ scope_of configured client ∷ principal)

-- The principals of `subjectFor` and `subjectForLocalIdentity`.
abbrev pub email_principal : Text → List Text
email_principal email = email ∷ []

abbrev pub local_principal : Text → List Text
local_principal id = codes "local" ∷ id ∷ []
