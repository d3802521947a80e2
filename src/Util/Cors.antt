-- ===== src/Util/Cors.antt =====
-- src/util/cors.js: which origins may read an answer. Headers are pairs of a lower-case name and a
-- value, in order.
use smart_access_gateway.Prelude.{
  ℕ, ◌≡◌, refl, false, not, Option, none, some, List, [], ◌∷◌, ◌++◌, keep, includes, ◌==◌, nat_eq,
  string_eq, if◌then◌else◌,
}
use smart_access_gateway.Util.Bytes.{Text, codes}
use smart_access_gateway.Util.Text.{text_Eq}

pub record Response : Type 0 where
  pub status : ℕ
  pub headers : List (Text × Text)

abbrev pub star : Text
star = codes "*"

abbrev pub allow_origin : Text
allow_origin = codes "access-control-allow-origin"

abbrev pub vary : Text
vary = codes "vary"

-- `allowedOrigin`; an absent or an empty origin is none.
unfoldable pub allowed_origin : List Text → Option Text → Option Text
allowed_origin allowed none = none
allowed_origin allowed (some []) = none
allowed_origin allowed (some (c ∷ origin)) =
    if includes star allowed
    then some star
    else if includes (c ∷ origin) allowed
    then some (c ∷ origin)
    else none

abbrev pub preflight_headers : List (Text × Text)
preflight_headers =
    (codes "access-control-allow-methods", codes "GET, POST, OPTIONS")
    ∷ (codes "access-control-allow-headers", codes "authorization, content-type")
    ∷ (codes "access-control-max-age", codes "600")
    ∷ []

abbrev pub preflight_for : Option Text → List (Text × Text)
preflight_for none = preflight_headers
preflight_for (some allow) =
    let headers = preflight_headers ++ ((allow_origin, allow) ∷ []) in
    if allow == star then headers else headers ++ ((vary, codes "origin") ∷ [])

-- `corsPreflight`
unfoldable pub cors_preflight : List Text → Option Text → Response
cors_preflight allowed origin = record {
  status = 204;
  headers = preflight_for (allowed_origin allowed origin);
}

-- `headers.set`: the value takes the place of every header of the name.
unfoldable pub set_header : Text → Text → List (Text × Text) → List (Text × Text)
set_header name value headers = keep (λ h. not (h.0 == name)) headers ++ ((name, value) ∷ [])

abbrev pub with_allowed : Option Text → Response → Response
with_allowed none response = response
with_allowed (some allow) response =
    let headers =
      set_header (codes "access-control-expose-headers") (codes "www-authenticate")
        (set_header allow_origin allow response.headers) in
    record response {
      headers = if allow == star then headers else headers ++ ((vary, codes "origin") ∷ []);
    }

-- `withCors`
unfoldable pub with_cors : List Text → Option Text → Response → Response
with_cors allowed origin response = with_allowed (allowed_origin allowed origin) response

-- For an origin that is not listed, where the list holds no star either, an answer is left as it
-- is and a preflight has its fixed headers only, none of which names an origin.
pub with_cors_unlisted :
    (allowed : List Text) (origin : Text) (response : Response)
    → (includes star allowed ≡ false) × (includes origin allowed ≡ false)
    → (with_cors allowed (some origin) response ≡ response)
      × ((cors_preflight allowed (some origin)).headers ≡ preflight_headers)
unfolding with_cors allowed_origin cors_preflight
with_cors_unlisted allowed [] response h = (refl, refl)
with_cors_unlisted allowed (c ∷ origin) response (no_star, unlisted) =
    (rw (no_star, unlisted) refl, rw (no_star, unlisted) refl)
