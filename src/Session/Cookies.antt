-- ===== src/Session/Cookies.antt =====
-- The names of session cookies: a global sign-out finds every cookie that a client scope may set.
use smart_access_gateway.Prelude.{
  ◌≡◌, refl, inl, inr, Bool, true, not, Option, none, some, List, [], ◌∷◌, ◌++◌, arith, take, keep,
  includes, ==_iff, nat_eq, string_eq, Bool-cases,
}
use smart_access_gateway.Util.Bytes.{Text, codes}
use smart_access_gateway.Util.Text.{text_eq, text_eq_iff, text_Eq, starts_with}
use smart_access_gateway.Session.{
  SessionConfig, cookie_name_for, all_session_cookie_names, is_separator,
}

starts_with-append : (p q r : Text) → starts_with (p ++ (q ++ r)) (p ++ q) ≡ true
unfolding starts_with
starts_with-append [] [] r = refl
starts_with-append [] (c ∷ q) r = rw ((==_iff c c).1 refl) (starts_with-append [] q r)
starts_with-append (c ∷ p) q r = rw ((==_iff c c).1 refl) (starts_with-append p q r)

includes-keep :
    (p : Text → Bool) (a : Text) (xs : List Text)
    → p a ≡ true
    → includes a (keep p xs) ≡ includes a xs
includes-keep p a [] h = refl
includes-keep p a (x ∷ xs) h = elim (Bool-cases (text_eq x a)) [
  | inl same ↦ let e = (text_eq_iff x a).0 same in rw (e, h) (ground (arith, text_eq_iff a a))
  | inr other ↦ ground (arith, includes-keep p a xs h)
]

-- The names that a global sign-out clears hold the cookie of a client, or the shared one, exactly
-- when the browser sent it.
pub all_session_cookie_names_complete :
    (sha256 : Text → Text) (config : SessionConfig) (client : Option Text) (jar : List Text)
    → includes (cookie_name_for sha256 config client) (all_session_cookie_names config jar)
      ≡ includes (cookie_name_for sha256 config client) jar
unfolding all_session_cookie_names cookie_name_for
all_session_cookie_names_complete sha256 config none jar =
    includes-keep _ config.cookie_name jar
      (rw ((text_eq_iff config.cookie_name config.cookie_name).1 refl))
all_session_cookie_names_complete sha256 config (some []) jar =
    includes-keep _ config.cookie_name jar
      (rw ((text_eq_iff config.cookie_name config.cookie_name).1 refl))
all_session_cookie_names_complete sha256 config (some (c ∷ id)) jar =
    let tag = keep (λ d. not (is_separator d)) (take 12 (sha256 (codes "cookie " ++ c ∷ id))) in
    let name = config.cookie_name ++ (b'_' ∷ tag) in
    includes-keep _ name jar (ground (arith, starts_with-append config.cookie_name (b'_' ∷ []) tag))
