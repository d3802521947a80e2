-- ===== src/Examples/Local.antt =====
-- A sign-in by password, and one that needs a second factor.
use smart_access_gateway.Prelude.{
  ◌≡◌, refl, true, false, Option, none, some, [], ◌∷◌, ok, length, find, ◌==◌, nat_eq, string_eq,
}
use smart_access_gateway.Util.Bytes.{Text, codes}
use smart_access_gateway.Util.Text.{text_eq, text_Eq}
use smart_access_gateway.Util.Http.{Params, single, get_all}
use smart_access_gateway.Store.Memory.{MemoryStore, empty, increment}
use smart_access_gateway.Store.Memory.Traces.{memory_state_store}
use smart_access_gateway.Crypto.Jose.{absent}
use smart_access_gateway.Session.{Session, touch, read_session}
use smart_access_gateway.Limits.{check_local_auth_allowed}
use smart_access_gateway.Acr.{satisfies}
use smart_access_gateway.Oauth.Code.{issue_code}
use smart_access_gateway.Profile.{Held}
use smart_access_gateway.Oauth.Transaction.{new_transaction, local_password}
use smart_access_gateway.Endpoints.Authorize.{Transaction, Completion, completed, leave, Platform}
use smart_access_gateway.Endpoints.Authorize.Complete.{
  complete, session_of, subject_of, told_email, remember, valid_session,
}
use smart_access_gateway.Endpoints.Authorize.Local.{
  Account, Proof, LocalStore, LocalContext, submit_password, submit_factor, local_session,
  complete_local, confirmed, check_password, verify_password, check_factor, factor_of,
}
use smart_access_gateway.Endpoints.Authorize.Local.Confirmed.{asking, submit_password_sound}
use smart_access_gateway.Endpoints.Authorize.Local.Checked.{IsChecked}
use smart_access_gateway.Endpoints.Authorize.{second_factor_page}
use smart_access_gateway.Endpoints.Authorize.Local.{ask_factor}
use smart_access_gateway.Acr.{local_mfa_acr, local_password_acr}
use smart_access_gateway.Endpoints.Authorize.Local.Factor.{IsProved, submit_factor_sound}
use smart_access_gateway.Examples.Toy.{toy_aead}
use smart_access_gateway.Examples.Registered.{app, app_request}
use smart_access_gateway.Examples.Deployment.{no_codec, config, moment}

abbrev platform : Platform MemoryStore
platform = record {
  store = some memory_state_store;
  keys = record { address_tag = λ t. "a"; network_tag = λ t. "n"; decimal = λ n. "d" };
  aead = toy_aead;
  code_codec = no_codec;
  tx_codec = no_codec;
  session_codec = no_codec;
  sha256 = λ t. t;
  derive = λ t. t;
  digest = λ id address code. code;
  send = λ address code. none;
  guess = λ address. none;
  valid_local = none;
  local_allowed = λ address. true;
  upstreams_for = λ address. [];
  hint = λ list domain. record { list = list; hinted = none; unmatched = false };
  begin = λ u tx hinted. none;
}

abbrev account : Account
account = record {
  id = "l1";
  key = "k1";
  security_version = 4;
  disabled = false;
  mfa_required = false;
  password = codes "hash";
  totp_digits = 6 ∷ [];
  claims = λ claim. absent;
}

abbrev proof : Proof
proof = record { account = account; method = codes "totp" }

abbrev accounts : LocalStore MemoryStore
accounts = record {
  find = λ address s. some account;
  byte_length = λ t. length t;
  max_password_bytes = 64;
  verify = λ hash value. some (value == codes "open");
  verify_dummy = λ value. false;
  verify_second_factor = λ account code now consume s. (some proof, s);
}

abbrev local : LocalContext MemoryStore
local = record {
  store = some accounts;
  limits = record { attempt_window_seconds = 60; max_attempts = 3; network_max_attempts = 0 };
  network = none;
  profile = record { claims = []; show_picture = false };
}

abbrev start_tx : Transaction
start_tx = new_transaction 10 900 "t1" app_request

abbrev asked : Transaction
asked = record start_tx { stage = local_password; email = some (codes "a@b.c") }

abbrev password : Params
password = ("password", codes "open") ∷ []

abbrev strict_account : Account
strict_account = record account { mfa_required = true }

abbrev strict : LocalContext MemoryStore
strict = record local { store = some (record accounts { find = λ address s. some strict_account }) }

abbrev signed_in : LocalContext MemoryStore → Option Text → Transaction → Session Held
signed_in ctx factor tx =
    touch config.session 10 (local_session config platform moment ctx tx account factor none)

abbrev minted : LocalContext MemoryStore → Option Text → Transaction → Completion
minted ctx factor tx = record {
  redirect_uri = codes "app:/cb";
  response_mode = codes "query";
  state = none;
  code =
      issue_code toy_aead no_codec 10 60 "j2" (7 ∷ []) (codes "k") tx (signed_in ctx factor tx)
        (subject_of config platform moment app (signed_in ctx factor tx))
        (told_email config platform moment app (signed_in ctx factor tx));
  session = signed_in ctx factor tx;
  remember = leave;
}

by_password :
    (submit_password config platform moment local asked app password (empty 100)).0
    ≡ ok (completed (minted local none asked))
unfolding submit_password check_password verify_password confirmed complete_local complete
    session_of read_session valid_session single get_all check_local_auth_allowed increment
    satisfies text_eq new_transaction remember smart_access_gateway.Limits.check_network
    smart_access_gateway.Limits.check_address smart_access_gateway.Prelude.Maps.lookup
by_password = refl

submit_password_sound_example :
    (held : Account) × IsChecked config platform moment local asked password (empty 100) held
    × (held.mfa_required ≡ false)
    × (satisfies local_password_acr asked.request.acr_values ≡ true)
submit_password_sound_example =
    submit_password_sound config platform moment local asked app password (empty 100)
      (minted local none asked) by_password

abbrev proving : Transaction
proving = asking asked strict_account

asks_factor :
    (submit_password config platform moment strict asked app password (empty 100)).0
    ≡ ok (second_factor_page proving (6 ∷ []) false)
unfolding submit_password check_password verify_password confirmed ask_factor single get_all
    check_local_auth_allowed increment satisfies text_eq new_transaction
    smart_access_gateway.Limits.check_network smart_access_gateway.Limits.check_address
    smart_access_gateway.Prelude.Maps.lookup
asks_factor = refl

abbrev code : Params
code = ("code", codes "123456") ∷ []

abbrev totp : Option Text
totp = some (codes "totp")

by_factor :
    (submit_factor config platform moment strict proving app code (empty 100)).0
    ≡ ok (completed (minted strict totp proving))
unfolding submit_factor check_factor factor_of complete_local complete session_of read_session
    valid_session single get_all check_local_auth_allowed increment text_eq new_transaction remember
    smart_access_gateway.Limits.check_network smart_access_gateway.Limits.check_address
    smart_access_gateway.Prelude.Maps.lookup
by_factor = refl

submit_factor_sound_example :
    (held : Account) × IsChecked config platform moment strict asked password (empty 100) held
    × (held.mfa_required ≡ true)
    × (satisfies local_mfa_acr asked.request.acr_values ≡ true)
    × (proving ≡ asking asked held)
    × IsProved config platform moment strict proving code (empty 100)
submit_factor_sound_example =
    submit_factor_sound config platform moment moment strict asked proving app app password code
      (empty 100) (empty 100) (6 ∷ []) (minted strict totp proving) asks_factor by_factor
