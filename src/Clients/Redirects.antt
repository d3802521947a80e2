-- ===== src/Clients/Redirects.antt =====
-- Which redirect URI a registration allows.
use smart_access_gateway.Prelude.{
  ◌≡◌, refl, ◌⊎◌, inl, inr, true, Option, none, some, List, [], ◌∷◌, arith, any, Any, ◌==◌, nat_eq,
  string_eq, Bool-cases,
}
use smart_access_gateway.Util.Bytes.{Text}
use smart_access_gateway.Util.Text.{text_Eq, text_eq_iff, to_lower}
use smart_access_gateway.Clients.{
  Url, drop_last, loopback, same_target, matches, scheme_allowed, allowed_for, redirect_uri_allowed,
}

-- The two URLs are the same, or differ at most in the port of one loopback host, in the user
-- information and in the fragment.
abbrev pub IsSameTarget : Url → Url → Type 0
IsSameTarget have want =
    (have.href ≡ want.href)
    ⊎ ((loopback want.hostname ≡ true)
        × (have.protocol ≡ want.protocol)
        × (have.hostname ≡ want.hostname)
        × (have.pathname ≡ want.pathname)
        × (have.search ≡ want.search))

same_target_sound : (have want : Url) → same_target have want ≡ true → IsSameTarget have want
unfolding same_target
same_target_sound have want h = elim (Bool-cases (have.href == want.href)) [
  | inl e ↦ inl ((text_eq_iff have.href want.href).0 e)
  | inr other ↦ inr (
    ground arith,
    ground (arith, text_eq_iff have.protocol want.protocol),
    ground (arith, text_eq_iff have.hostname want.hostname),
    ground (arith, text_eq_iff have.pathname want.pathname),
    ground (arith, text_eq_iff have.search want.search),
  )
]

-- Some registered URI parses and is the same target.
abbrev pub IsRegistered : (Text → Option Url) → List Text → Url → Type 0
IsRegistered parse_url uris want =
    Any (λ uri. (have : Url) × (parse_url uri ≡ some have) × IsSameTarget have want) uris

matches_sound :
    (parse_url : Text → Option Url) (uri : Text) (want : Url)
    → matches (parse_url uri) want ≡ true
    → (have : Url) × (parse_url uri ≡ some have) × IsSameTarget have want
matches_sound parse_url uri want h = go (parse_url uri) refl h
  where
    go :
        (u : Option Url)
        → parse_url uri ≡ u
        → matches u want ≡ true
        → (have : Url) × (parse_url uri ≡ some have) × IsSameTarget have want
    go none e k = cc
    go (some have) e k = (have, e, same_target_sound have want k)

registered_sound :
    (parse_url : Text → Option Url) (uris : List Text) (want : Url)
    → any (λ registered. matches (parse_url registered) want) uris ≡ true
    → IsRegistered parse_url uris want
registered_sound parse_url [] want h = cc
registered_sound parse_url (uri ∷ uris) want h = elim (Bool-cases (matches (parse_url uri) want)) [
  | inl same ↦ inl (matches_sound parse_url uri want same)
  | inr other ↦ inr (registered_sound parse_url uris want (rw other at h))
]

-- An allowed redirect URI parses, has an allowed scheme, and either is the same URL as a registered
-- one or, for a loopback host, differs from a registered one at most in the port, the user
-- information and the fragment.
pub redirect_uri_allowed_sound :
    (parse_url : Text → Option Url) (uris schemes : List Text) (candidate : Text)
    → redirect_uri_allowed parse_url uris candidate schemes ≡ true
    → (want : Url) × (parse_url candidate ≡ some want)
      × (scheme_allowed schemes (to_lower (drop_last want.protocol)) ≡ true)
      × IsRegistered parse_url uris want
unfolding redirect_uri_allowed
redirect_uri_allowed_sound parse_url uris schemes candidate h = go (parse_url candidate) refl h
  where
    go :
        (u : Option Url)
        → parse_url candidate ≡ u
        → allowed_for parse_url u uris schemes ≡ true
        → (want : Url) × (parse_url candidate ≡ some want)
          × (scheme_allowed schemes (to_lower (drop_last want.protocol)) ≡ true)
          × IsRegistered parse_url uris want
    go none e k = cc
    go (some want) e k =
        let scheme : scheme_allowed schemes (to_lower (drop_last want.protocol)) ≡ true =
          ground arith in
        (want, e, scheme, registered_sound parse_url uris want (rw scheme at k))
