-- ===== src/Examples/Deployment.antt =====
-- A deployment whose keys, mail and providers are trivial.
use smart_access_gateway.Prelude.{
  ℕ, true, false, Option, none, some, [], ◌∷◌, ok, ◌==◌, nat_eq, string_eq, if◌then◌else◌,
}
use smart_access_gateway.Util.Bytes.{Text, codes}
use smart_access_gateway.Util.Text.{text_Eq}
use smart_access_gateway.Crypto.Seal.{Codec}
use smart_access_gateway.Clients.{Url}
use smart_access_gateway.Oauth.Request.{RequestServices, RequestConfig, natural}
use smart_access_gateway.Endpoints.Authorize.{FlowConfig, Platform, Moment}
use smart_access_gateway.Endpoints.Authorize.Local.{LocalContext}
use smart_access_gateway.Endpoints.Authorize.Callback.{CallbackContext}
use smart_access_gateway.Examples.Toy.{toy_aead}
use smart_access_gateway.Examples.Registered.{app}

abbrev pub no_codec : {A : Type 0} → Codec A
no_codec = record { stringify = λ a. []; parse = λ bytes. none; exp = λ a. none; iat = λ a. none }

abbrev pub config : FlowConfig
config = record {
  session = record {
    cookie_name = codes "sag";
    scope = "shared";
    idle_ttl_seconds = 600;
    max_lifetime_seconds = 3600;
  };
  otp = record { enabled = true; allowed_domains = []; blocked_domains = [] };
  otp_ttl_seconds = 300;
  max_resends = 3;
  max_attempts = 5;
  limits = record { send_window_seconds = 60; send_burst = 1; send_daily_limit = 5 };
  clock_skew_seconds = 60;
  transaction_ttl_seconds = 900;
  code_ttl_seconds = 60;
  secrets = codes "k" ∷ [];
  first_secret = codes "k";
  sanitise_plus_emails = false;
  subject_type = codes "public";
  hint_off = false;
  hint_select = false;
  explain_unknown = false;
}

abbrev pub platform : Platform ℕ
platform = record {
  store = none;
  keys = record { address_tag = λ t. "a"; network_tag = λ t. "n"; decimal = λ n. "d" };
  aead = toy_aead;
  code_codec = no_codec;
  tx_codec = no_codec;
  session_codec = no_codec;
  sha256 = λ t. t;
  derive = λ t. t;
  digest = λ id address code. code;
  send = λ address code. some none;
  guess = λ address. none;
  valid_local = none;
  local_allowed = λ address. false;
  upstreams_for = λ address. [];
  hint = λ list domain. record { list = list; hinted = none; unmatched = false };
  begin = λ u tx hinted. none;
}

abbrev pub moment : Moment
moment = record {
  now = 10;
  sid = "s2";
  tx_id = "t1";
  jti = "j2";
  iv = 7 ∷ [];
  code = codes "ABCDEF";
  cookies = λ name. none;
  remembered = none;
  has_remember_cookie = false;
}

abbrev pub toy_url : Text → Option Url
toy_url t = some (record {
  href = t;
  protocol = codes "app:";
  username = [];
  password = [];
  origin = [];
  hash = [];
  hostname = [];
  pathname = t;
  search = [];
})

abbrev pub services : RequestServices
services = record {
  parse_url = toy_url;
  number = λ t. natural 0;
  resolve = λ id. ok (if id == codes "app" then some app else none);
}

abbrev pub requests : RequestConfig
requests = record { redirect_uri_schemes = codes "app" ∷ []; default_required = [] }

-- No local accounts, and no upstream that is linked to them.
abbrev pub no_local : LocalContext ℕ
no_local = record {
  store = none;
  limits = record { attempt_window_seconds = 300; max_attempts = 5; network_max_attempts = 9 };
  network = none;
  profile = record { claims = []; show_picture = false };
}

abbrev pub no_upstreams : CallbackContext ℕ
no_upstreams = record {
  registered = λ id. none;
  exchange = λ u code tx. none;
  label = λ u. "";
  links = none;
  profile = record { claims = []; show_picture = false };
}
