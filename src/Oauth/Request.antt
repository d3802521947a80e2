-- ===== src/Oauth/Request.antt =====
-- src/oauth/request.js: parsing and validating an authorisation request. The URL parser, `Number` on
-- a text and the resolution of a client are arguments.
pub mod Checks
pub mod Identify
pub mod Accepted
pub mod Reported
pub mod Target
use Prim.Native.String.{◌++◌ as str_append}
use smart_access_gateway.Prelude.{
  ℕ, String, Bool, true, false, not, ◌&&◌, Option, none, some, List, [], ◌∷◌, ◌++◌, map, Result, ok,
  err, ◌>>=◌, ◌>>◌, throw_if, length, keep, includes, ltb, ◌==◌, nat_eq, string_eq, if◌then◌else◌,
  or_default,
}
use smart_access_gateway.Util.Bytes.{Text, codes}
use smart_access_gateway.Util.Text.{text_Eq, words, spell}
use smart_access_gateway.Util.Http.{Params, get_all, single}
use smart_access_gateway.Errors.{
  OauthError, Failure, oauth, unredirectable, Thrown, known, unknown, relayed, or_fail,
}
use smart_access_gateway.Clients.{Url, Client, redirect_uri_allowed}
use smart_access_gateway.Identity.{normalise_email}
use smart_access_gateway.Oauth.Code.{is_pkce_text}
use smart_access_gateway.Oauth.Transaction.{Request}

-- `Number(text)`, as far as the code asks: an integer that is not negative, or anything else.
pub data Number : Type 0 where
  natural : ℕ → Number
  other_number : Number

pub record RequestServices : Type 0 where
  pub parse_url : Text → Option Url
  pub number : Text → Number
  pub resolve : Text → Result Thrown (Option Client)

pub record RequestConfig : Type 0 where
  pub redirect_uri_schemes : List Text
  pub default_required : List String

-- What `parseAuthorizationRequest` returns; `ui_locales` does not enter the transaction.
pub record Parsed : Type 0 where
  pub client : Client
  pub request : Request
  pub ui_locales : List Text

-- `RESPONSE_TYPES`, `RESPONSE_MODES`, `PROMPTS` and `SUPPORTED_SCOPES`
abbrev pub response_types : List Text
response_types = codes "code" ∷ []

abbrev pub response_modes : List Text
response_modes = codes "query" ∷ codes "form_post" ∷ []

abbrev pub prompts : List Text
prompts = codes "none" ∷ codes "login" ∷ codes "consent" ∷ codes "select_account" ∷ []

abbrev pub supported_scopes : List Text
supported_scopes = codes "openid" ∷ codes "email" ∷ codes "profile" ∷ codes "offline_access" ∷ []

-- `new UnredirectableError(...)`
abbrev pub unredirected : String → String → ℕ → Failure
unredirected c d status =
    unredirectable (record { code = c; description = d; status = status; redirectable = false })

-- `fail(...)`
abbrev pub reported : String → String → Failure
reported c d = oauth (relayed c d)

-- `(value || '').split(/\s+/).filter(Boolean)`
abbrev pub words_of : Option Text → List Text
words_of given = words (or_default given [])

-- `texts.join(', ')`
abbrev pub listed : List Text → String
listed [] = ""
listed (t ∷ []) = spell t
listed (t ∷ u ∷ ts) = str_append (spell t) (str_append ", " (listed (u ∷ ts)))

abbrev pub or_unidentified : Result Thrown (Option Client) → Result Failure Client
or_unidentified (err (known e)) = err (unredirected e.code e.description e.status)
or_unidentified (err (unknown m)) =
    err (unredirected "invalid_client" (str_append "The client could not be identified: " m) 400)
or_unidentified (ok none) =
    err (unredirected "invalid_client" "No client is registered with that client_id here." 401)
or_unidentified (ok (some client)) = ok client

pub record Identified : Type 0 where
  pub client : Client
  pub client_id : Text
  pub redirect_uri : Text

-- The first stage: who is asking, and where may the answer go?
unfoldable pub identify : RequestServices → RequestConfig → Params → Result Failure Identified
identify services config params = do
  given ← single params "client_id"
  client_id ←
      or_fail (unredirected "invalid_request" "The client_id parameter is missing." 400) given
  client ← or_unidentified (services.resolve client_id)
  uri ← single params "redirect_uri"
  redirect_uri ←
      or_fail (unredirected "invalid_request" "The redirect_uri parameter is missing." 400) uri
  throw_if
      (not (
        redirect_uri_allowed services.parse_url client.redirect_uris redirect_uri
          config.redirect_uri_schemes))
      (unredirected "invalid_request"
        "That redirect_uri is not permitted. It must use an allowed scheme and match one of the registered values exactly."
        400)
  ok (record { client = client; client_id = client_id; redirect_uri = redirect_uri })

unfoldable pub check_response_type : Option Text → Result Failure Text
check_response_type none =
    err (reported "invalid_request" "The response_type parameter is missing.")
check_response_type (some type) = do
  throw_if (not (includes type response_types)) (
      reported "unsupported_response_type"
        "Only the authorization code flow is supported here, so response_type must be \"code\".")
  ok type

unfoldable pub check_response_mode : Option Text → Result Failure Text
check_response_mode given = do
  throw_if (not (includes (or_default given (codes "query")) response_modes))
      (reported "invalid_request" "response_mode must be \"query\" or \"form_post\".")
  ok (or_default given (codes "query"))

abbrev pub outside : List Text → List Text → List Text
outside allowed = keep (λ s. not (includes s allowed))

abbrev pub check_permitted : Option (List Text) → List Text → Result Failure (Unit {0})
check_permitted none scope = ok tt
check_permitted (some scopes) scope = throw_if (not (length (outside scopes scope) == 0)) (
    reported "invalid_scope"
      (str_append "This client may not request: " (str_append (listed (outside scopes scope)) ".")))

unfoldable pub check_scope : Option (List Text) → Option Text → Result Failure (List Text)
check_scope permitted given = do
  throw_if (not (includes (codes "openid") (words_of given))) (
      reported "invalid_scope"
        "The scope must include \"openid\". This service issues identity tokens only.")
  throw_if (not (length (outside supported_scopes (words_of given)) == 0)) (
      reported "invalid_scope" (
        str_append "Unsupported scope: "
          (str_append (listed (outside supported_scopes (words_of given))) ".")))
  check_permitted permitted (words_of given)
  ok (words_of given)

pub record Challenge : Type 0 where
  pub challenge : Option Text
  pub method : Option Text

-- The challenge and its method, `S256` where none is named.
unfoldable pub check_challenge : Bool → Option Text → Option Text → Result Failure Challenge
check_challenge require_pkce none method = do
  throw_if require_pkce (
      reported "invalid_request"
        "A code_challenge is required. This service implements OAuth 2.1, where PKCE is mandatory.")
  ok (record { challenge = none; method = none })
check_challenge require_pkce (some challenge) method = do
  throw_if (not (or_default method (codes "S256") == codes "S256"))
      (reported "invalid_request" "code_challenge_method must be \"S256\".")
  throw_if (not (is_pkce_text challenge))
      (reported "invalid_request" "The code_challenge is not a valid base64url S256 digest.")
  ok (record { challenge = some challenge; method = some (or_default method (codes "S256")) })

abbrev pub prompt_of : Option Text → List Text
prompt_of none = codes "consent" ∷ []
prompt_of (some raw) = words raw

abbrev pub each_prompt : List Text → Result Failure (Unit {0})
each_prompt [] = ok tt
each_prompt (p ∷ ps) = do
  throw_if (not (includes p prompts)) (
      reported "invalid_request"
        (str_append "Unsupported prompt value: " (str_append (spell p) ".")))
  each_prompt ps

unfoldable pub check_prompt : Option Text → Result Failure (List Text)
check_prompt raw = do
  each_prompt (prompt_of raw)
  throw_if (includes (codes "none") (prompt_of raw) && ltb 1 (length (prompt_of raw)))
      (reported "invalid_request" "prompt=none cannot be combined with other prompt values.")
  ok (prompt_of raw)

abbrev age_of : Number → Result Failure (Option ℕ)
age_of (natural n) = ok (some n)
age_of other_number = err (reported "invalid_request" "max_age must be a non-negative integer.")

unfoldable pub check_max_age : (Text → Number) → Option Text → Result Failure (Option ℕ)
check_max_age number none = ok none
check_max_age number (some raw) = age_of (number raw)

abbrev or_defaults : List String → List Text → List String
or_defaults defaults [] = defaults
or_defaults defaults (a ∷ as') = map spell (a ∷ as')

-- The loop that adds a client's floor.
unfoldable pub add_floor : List String → List String → List String
add_floor required [] = required
add_floor required (a ∷ floor) =
    add_floor (if includes a required then required else required ++ (a ∷ [])) floor

unfoldable pub required_acr : List String → List String → Option Text → List String
required_acr defaults floor given = add_floor (or_defaults defaults (words_of given)) floor

-- Both are given and not empty, and differ.
abbrev pub differs : Option Text → Option Text → Bool
differs none requested = false
differs (some []) requested = false
differs (some (c ∷ cs)) none = false
differs (some (c ∷ cs)) (some requested) = not (requested == c ∷ cs)

-- `a ?? b`
abbrev pub or_else : Option Text → Option Text → Option Text
or_else none b = b
or_else (some a) b = some a

unfoldable pub check_alg : Option Text → Option Text → Result Failure (Option Text)
check_alg registered requested = do
  throw_if (differs registered requested) (
      reported "invalid_request"
        "The requested ID token signing algorithm does not match this client registration.")
  ok (or_else registered requested)

abbrev hint_of : Option Text → Option Text
hint_of none = none
hint_of (some raw) = normalise_email raw

-- The second stage, for an identified client: what it finds wrong may be reported. First, how the
-- answer is to be sent and what is asked for.
pub record Answer : Type 0 where
  pub state : Option Text
  pub response_type : Text
  pub response_mode : Text
  pub scope : List Text

unfoldable pub parse_answer : Params → Client → Result Failure Answer
parse_answer params client = do
  state ← single params "state"
  given_type ← single params "response_type"
  response_type ← check_response_type given_type
  given_mode ← single params "response_mode"
  response_mode ← check_response_mode given_mode
  given_scope ← single params "scope"
  scope ← check_scope client.scopes given_scope
  ok (record {
    state = state;
    response_type = response_type;
    response_mode = response_mode;
    scope = scope;
  })

-- Then the challenge and the prompt.
pub record Terms : Type 0 where
  pub challenge : Challenge
  pub nonce : Option Text
  pub prompt : List Text

unfoldable pub parse_terms : Params → Client → Result Failure Terms
parse_terms params client = do
  given_challenge ← single params "code_challenge"
  given_method ← single params "code_challenge_method"
  challenge ← check_challenge client.require_pkce given_challenge given_method
  nonce ← single params "nonce"
  given_prompt ← single params "prompt"
  prompt ← check_prompt given_prompt
  ok (record { challenge = challenge; nonce = nonce; prompt = prompt })

-- Then the age and strength of the sign-in, and the algorithm.
pub record Strength : Type 0 where
  pub max_age : Option ℕ
  pub acr_values : List String
  pub id_token_alg : Option Text

unfoldable pub parse_strength :
    (Text → Number) → List String → Params → Client → Result Failure Strength
parse_strength number defaults params client = do
  given_age ← single params "max_age"
  max_age ← check_max_age number given_age
  given_acr ← single params "acr_values"
  given_alg ← single params "id_token_signed_response_alg"
  id_token_alg ← check_alg client.id_token_signed_response_alg given_alg
  ok (record {
    max_age = max_age;
    acr_values = required_acr defaults client.acr_values given_acr;
    id_token_alg = id_token_alg;
  })

unfoldable pub request_of :
    Identified → Answer → Terms → Strength → Option Text → List Text → Request
request_of who answer terms strength hint resource = record {
  client_id = who.client_id;
  redirect_uri = who.redirect_uri;
  state = answer.state;
  nonce = terms.nonce;
  scope = answer.scope;
  response_type = answer.response_type;
  response_mode = answer.response_mode;
  code_challenge = terms.challenge.challenge;
  code_challenge_method = terms.challenge.method;
  acr_values = strength.acr_values;
  prompt = terms.prompt;
  max_age = strength.max_age;
  login_hint = hint_of hint;
  id_token_alg = strength.id_token_alg;
  resource = resource;
}

abbrev pub not_empty : Text → Bool
not_empty [] = false
not_empty (c ∷ cs) = true

unfoldable pub parse_identified :
    RequestServices → RequestConfig → Params → Identified → Result Failure Parsed
parse_identified services config params who = do
  answer ← parse_answer params who.client
  terms ← parse_terms params who.client
  strength ← parse_strength services.number config.default_required params who.client
  hint ← single params "login_hint"
  locales ← single params "ui_locales"
  ok (record {
    client = who.client;
    request =
        request_of who answer terms strength hint (keep not_empty (get_all params "resource"));
    ui_locales = words_of locales;
  })

-- `parseAuthorizationRequest`
unfoldable pub parse_authorization_request :
    RequestServices → RequestConfig → Params → Result Failure Parsed
parse_authorization_request services config params =
    identify services config params >>= parse_identified services config params
