-- ===== src/Clients.antt =====
-- src/clients/index.js: who is asking. The URL parser of the platform is an argument, and so are the
-- client store and the fetch of a metadata document.
pub mod Redirects
use smart_access_gateway.Prelude.{
  String, Bool, true, false, not, ◌&&◌, ◌||◌, Option, none, some, List, [], ◌∷◌, Result, ok, ◌>>=◌,
  length, any, find, includes, ◌==◌, nat_eq, string_eq, if◌then◌else◌, or_default,
}
use smart_access_gateway.Util.Bytes.{Text, codes}
use smart_access_gateway.Util.Text.{text_Eq, to_lower, starts_with}
use smart_access_gateway.Errors.{Thrown}
use smart_access_gateway.Crypto.Jose.{Jwk}
use smart_access_gateway.Oauth.ClientAuth
use smart_access_gateway.Identity.{SubjectClient}

-- The parts of a parsed URL that the sources read.
pub record Url : Type 0 where
  pub href : Text
  pub protocol : Text
  pub username : Text
  pub password : Text
  pub origin : Text
  pub hostname : Text
  pub pathname : Text
  pub search : Text
  pub hash : Text

-- What a source produced: any field may be missing.
pub record Raw : Type 0 where
  pub source : String
  pub client_id : Text
  pub client_name : Option Text
  pub client_secret : Option Text
  pub client_secret_digest : Option Text
  pub redirect_uris : Option (List Text)
  pub post_logout_redirect_uris : Option (List Text)
  pub jwks : Option (List Jwk)
  pub jwks_uri : Option Text
  pub token_endpoint_auth_method : Option String
  pub scopes : Option (List Text)
  pub acr_values : Option (List String)
  pub id_token_signed_response_alg : Option Text
  pub session_scope : Option String
  pub subject_type : Option Text
  pub sector_identifier : Option Text
  pub sanitise_plus_emails : Option Bool
  pub require_pkce : Option Bool
  pub logo_uri : Option Text
  pub policy_uri : Option Text
  pub tos_uri : Option Text

pub record Client : Type 0 where
  pub source : String
  pub client_id : Text
  pub client_name : Text
  pub client_secret : Option Text
  pub client_secret_digest : Option Text
  pub redirect_uris : List Text
  pub post_logout_redirect_uris : List Text
  pub jwks : Option (List Jwk)
  pub jwks_uri : Option Text
  pub token_endpoint_auth_method : String
  pub scopes : Option (List Text)
  pub acr_values : List String
  pub id_token_signed_response_alg : Option Text
  pub session_scope : Option String
  pub subject_type : Option Text
  pub sector_identifier : Option Text
  pub sanitise_plus_emails : Option Bool
  pub require_pkce : Bool
  pub logo_uri : Option Text
  pub policy_uri : Option Text
  pub tos_uri : Option Text

-- `value || other` on texts, and `value?.length ? value : undefined`.
abbrev pub text_or : Option Text → Text → Text
text_or none other = other
text_or (some []) other = other
text_or (some (c ∷ cs)) other = c ∷ cs

abbrev pub if_any : Option (List Text) → Option (List Text)
if_any none = none
if_any (some []) = none
if_any (some (x ∷ xs)) = some (x ∷ xs)

abbrev method_or_none : Option String → String
method_or_none none = "none"
method_or_none (some m) = if m == "" then "none" else m

-- `raw !== false`
abbrev unless_false : Option Bool → Bool
unless_false none = true
unless_false (some b) = b

-- `normalise`
unfoldable pub normalise : Raw → Client
normalise raw = record {
  source = raw.source;
  client_id = raw.client_id;
  client_name = text_or raw.client_name raw.client_id;
  client_secret = raw.client_secret;
  client_secret_digest = raw.client_secret_digest;
  redirect_uris = or_default raw.redirect_uris [];
  post_logout_redirect_uris = or_default raw.post_logout_redirect_uris [];
  jwks = raw.jwks;
  jwks_uri = raw.jwks_uri;
  token_endpoint_auth_method = method_or_none raw.token_endpoint_auth_method;
  scopes = if_any raw.scopes;
  acr_values = or_default raw.acr_values [];
  id_token_signed_response_alg = raw.id_token_signed_response_alg;
  session_scope = raw.session_scope;
  subject_type = raw.subject_type;
  sector_identifier = raw.sector_identifier;
  sanitise_plus_emails = raw.sanitise_plus_emails;
  require_pkce = unless_false raw.require_pkce;
  logo_uri = raw.logo_uri;
  policy_uri = raw.policy_uri;
  tos_uri = raw.tos_uri;
}

-- The parts of a registration that client authentication and the subject derivation read.
abbrev pub credential_part : Client → ClientAuth.Client
credential_part client = record {
  client_id = client.client_id;
  token_endpoint_auth_method = client.token_endpoint_auth_method;
  client_secret_digest = client.client_secret_digest;
  client_secret = client.client_secret;
  jwks = client.jwks;
  jwks_uri = client.jwks_uri;
}

abbrev pub subject_part : Client → SubjectClient
subject_part client = record {
  client_id = client.client_id;
  sector_identifier = client.sector_identifier;
  subject_type = client.subject_type;
  sanitise_plus_emails = client.sanitise_plus_emails;
}

-- `isConfidential`
unfoldable pub is_confidential : Client → Bool
is_confidential client = not (client.token_endpoint_auth_method == "none")

-- `text.slice(0, -1)`
unfoldable pub drop_last : Text → Text
drop_last [] = []
drop_last (c ∷ []) = []
drop_last (c ∷ d ∷ cs) = c ∷ drop_last (d ∷ cs)

abbrev pub loopback : Text → Bool
loopback h = h == codes "127.0.0.1" || h == codes "[::1]" || h == codes "localhost"

-- The test of `redirectUriAllowed` on one registered URI that parses.
unfoldable pub same_target : Url → Url → Bool
same_target have want =
    have.href == want.href
    || loopback have.hostname
      && loopback want.hostname
      && have.protocol == want.protocol
      && have.hostname == want.hostname
      && have.pathname == want.pathname
      && have.search == want.search

abbrev pub matches : Option Url → Url → Bool
matches none want = false
matches (some have) want = same_target have want

abbrev pub scheme_allowed : List Text → Text → Bool
scheme_allowed schemes scheme = includes (codes "*") schemes || includes scheme schemes

module _ (parse_url : Text → Option Url) where
  abbrev pub allowed_for : Option Url → List Text → List Text → Bool
  allowed_for none uris schemes = false
  allowed_for (some want) uris schemes =
      scheme_allowed schemes (to_lower (drop_last want.protocol))
      && any (λ registered. matches (parse_url registered) want) uris

  -- `redirectUriAllowed`, over the registered URIs.
  unfoldable pub redirect_uri_allowed : List Text → Text → List Text → Bool
  redirect_uri_allowed uris candidate schemes = allowed_for (parse_url candidate) uris schemes

  -- `postLogoutRedirectAllowed`
  unfoldable pub post_logout_redirect_allowed : Option Client → Text → List Text → Bool
  post_logout_redirect_allowed none candidate schemes = false
  post_logout_redirect_allowed (some client) candidate schemes =
      not (length client.post_logout_redirect_uris == 0)
      && redirect_uri_allowed client.post_logout_redirect_uris candidate schemes

-- The configuration that `resolveClient` reads.
pub record ClientsConfig : Type 0 where
  pub static_clients : List Raw
  pub opaque_enabled : Bool
  pub redirect_uri_schemes : List Text

abbrev from_record :
    (Text → Result Thrown (Option Client)) → Text → Option Raw → Result Thrown (Option Client)
from_record otherwise client_id (some raw) = ok (some (normalise raw))
from_record otherwise client_id none = otherwise client_id

abbrev by_document : (Text → Result Thrown (Option Client)) → Text → Result Thrown (Option Client)
by_document cimd client_id =
    if starts_with client_id (codes "https://") || starts_with client_id (codes "http://")
    then cimd client_id
    else ok none

abbrev by_store :
    Bool
    → Option (Text → Result Thrown (Option Raw))
    → (Text → Result Thrown (Option Client))
    → Text
    → Result Thrown (Option Client)
by_store enabled none cimd client_id = by_document cimd client_id
by_store false (some get) cimd client_id = by_document cimd client_id
by_store true (some get) cimd client_id = get client_id >>= from_record (by_document cimd) client_id

abbrev by_static : Option Raw → Result Thrown (Option Client) → Result Thrown (Option Client)
by_static (some raw) otherwise = ok (some (normalise raw))
by_static none otherwise = otherwise

-- `resolveClient`: `store` gives the record of a client id, with the source and the id that the code
-- puts before the record's own fields, and `cimd` is `resolveCimd`.
unfoldable pub resolve_client :
    ClientsConfig
    → Option (Text → Result Thrown (Option Raw))
    → (Text → Result Thrown (Option Client))
    → Text
    → Result Thrown (Option Client)
resolve_client config store cimd [] = ok none
resolve_client config store cimd (c ∷ id) =
    by_static (find (λ (raw : Raw). raw.client_id == c ∷ id) config.static_clients)
      (by_store config.opaque_enabled store cimd (c ∷ id))
