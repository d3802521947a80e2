-- ===== src/Examples/Mailed.antt =====
-- A request that is answered by an emailed code.
use smart_access_gateway.Prelude.{
  ℕ, ◌≡◌, refl, sym, ◌≢◌, true, false, none, some, [], ◌∷◌, arith, ok, length, includes, ◌==◌,
  nat_eq, string_eq, if◌then◌else◌,
}
use smart_access_gateway.Util.Bytes.{codes}
use smart_access_gateway.Util.Text.{to_lower, text_eq, text_Eq}
use smart_access_gateway.Util.Http.{Params, get_all, single}
use smart_access_gateway.Session.{Session, read_session, touch}
use smart_access_gateway.Identity.{normalise_email, looks_like_email}
use smart_access_gateway.Limits.{check_otp_send_allowed}
use smart_access_gateway.Otp.{OtpConfig, otp_allowed, normalise_code, verify_code, domain_of}
use smart_access_gateway.Acr.{satisfies, otp_acr, requires_federation}
use smart_access_gateway.Profile.{Held}
use smart_access_gateway.Oauth.Code.{issue_code}
use smart_access_gateway.Oauth.Transaction.{new_transaction, email, with_otp}
use smart_access_gateway.Oauth.Request.{Parsed}
use smart_access_gateway.Endpoints.Authorize.{
  Transaction, email_page, otp_page, completed, Completion, leave, Moment,
}
use smart_access_gateway.Endpoints.Authorize.Complete.{
  complete, session_of, subject_of, told_email, decide, decide_openly, render_email, valid_session,
}
use smart_access_gateway.Endpoints.Authorize.Codes.{
  after_limit, drawn, code_session, send_otp, submit_otp, address_of,
}
use smart_access_gateway.Endpoints.Authorize.Handlers.{Loaded, start, submit_email, with_address}
use smart_access_gateway.Endpoints.Authorize.Decoys.{with_policy, send_otp_decoy}
use smart_access_gateway.Endpoints.Authorize.Reach.{
  give_email, act, Reached, begun, moved, submit_otp-satisfies,
}
use smart_access_gateway.Endpoints.Authorize.Live.{
  page_token, IsLoadable, handle_otp_submit-send_otp,
}
use mathlib.Core.Path.{subst}
use smart_access_gateway.Endpoints.Authorize.Handlers.{handle_otp_submit}
use smart_access_gateway.Crypto.Seal.{Codec}
use smart_access_gateway.Util.Text.{text_eq, text_Eq}
use smart_access_gateway.Endpoints.Authorize.{Platform}
use smart_access_gateway.Examples.Toy.{toy_aead}
use smart_access_gateway.Examples.Registered.{app, app_request}
use smart_access_gateway.Util.Bytes.{timing_safe_equal}
use smart_access_gateway.Endpoints.Authorize.Codes.{verdict_on, accept_code, after_verdict}
use smart_access_gateway.Endpoints.Authorize.Complete.{remember}
use smart_access_gateway.Session.{touch}
use smart_access_gateway.Acr.{otp_acr}
use smart_access_gateway.Oauth.Transaction.{with_otp}
use smart_access_gateway.Otp.{verify_code}
use smart_access_gateway.Oauth.Code.{issue_code}
use smart_access_gateway.Endpoints.Authorize.{Completion, completed, leave}
use smart_access_gateway.Endpoints.Authorize.Complete.{subject_of, told_email}
use smart_access_gateway.Examples.Deployment.{
  no_codec, config, platform, moment, services, requests, no_local, no_upstreams,
}

abbrev asked : Parsed
asked = record { client = app; request = app_request; ui_locales = [] }

abbrev begun_tx : Transaction
begun_tx = record (new_transaction 10 900 "t1" app_request) { stage = email }

starts :
    (start services requests config platform moment asked 0).0 ≡ ok (email_page begun_tx none false)
unfolding start session_of read_session valid_session decide decide_openly render_email
    new_transaction text_eq
starts = refl

abbrev address_params : Params
address_params = ("email", codes "a@b.c") ∷ ("method", codes "otp") ∷ []

abbrev addressed : Transaction
addressed = record begun_tx { email = some (codes "a@b.c"); remember_me = some false }

abbrev waiting : Transaction
waiting = drawn config platform moment addressed false

abbrev loaded : Loaded
loaded = record { tx = begun_tx; client = app }

mailed :
    (act services requests config platform no_local no_upstreams moment
      (give_email address_params)
      loaded
      0).0
    ≡ ok (otp_page waiting none none false)
unfolding act submit_email with_address single get_all normalise_email looks_like_email send_otp
    after_limit check_otp_send_allowed otp_allowed requires_federation
    smart_access_gateway.Identity.split_last smart_access_gateway.Identity.trim
    smart_access_gateway.Identity.trim_end smart_access_gateway.Identity.trim_start to_lower
    smart_access_gateway.Util.Text.split text_eq smart_access_gateway.Acr.minimum_strength_required
    new_transaction domain_of
mailed = refl

reached : Reached services requests config platform no_local no_upstreams waiting
reached =
    moved moment (give_email address_params) loaded 0 (otp_page waiting none none false)
      (begun moment asked 0 (email_page begun_tx none false) starts refl) mailed refl

served : otp_allowed config.otp (codes "a@b.c") ≡ true
unfolding otp_allowed domain_of smart_access_gateway.Util.Text.split
served = refl

abbrev code_params : Params
code_params = ("code", codes "abc-def") ∷ []

abbrev later : Moment
later = record moment { now = 100 }

may_send :
    (check_otp_send_allowed {S = ℕ} platform.keys none config.limits 10 (codes "a@b.c") 0).0.allowed
    ≡ true
unfolding check_otp_send_allowed
may_send = refl

code_folds : normalise_code (codes "abc-def") ≡ codes "ABCDEF"
unfolding normalise_code
code_folds = refl

abbrev closed : OtpConfig
closed = record { enabled = false; allowed_domains = []; blocked_domains = [] }

abbrev page_codec : Codec Transaction
page_codec = record {
  stringify = λ p. 1 ∷ [];
  parse = λ bytes. if length bytes == 1 then some waiting else none;
  exp = λ p. some p.exp;
  iat = λ p. none;
}

abbrev with_pages : Platform ℕ
with_pages = record platform { tx_codec = page_codec }

abbrev posted : Params
posted =
    ("tx", page_token services requests config with_pages moment later waiting)
    ∷ ("code", codes "abc-def")
    ∷ []

posted_waiting : drawn config with_pages moment addressed false ≡ waiting
unfolding drawn with_otp
posted_waiting = refl

loadable : IsLoadable services requests config with_pages moment later waiting app
unfolding drawn with_otp new_transaction text_eq
loadable = record {
  reads = refl;
  exp = refl;
  version = refl;
  named = omega arith;
  resolved = refl;
  live = omega arith;
}

page_given :
    single posted "tx"
    ≡ ok (some (page_token services requests config with_pages moment later waiting))
unfolding single get_all smart_access_gateway.Crypto.Seal.seal
page_given = refl

typed_given : single posted "code" ≡ ok (some (codes "abc-def"))
unfolding single get_all
typed_given = refl

secret_held : includes (codes "k") (codes "k" ∷ []) ≡ true
unfolding text_eq
secret_held = refl

secret_given : codes "k" ≢ []
secret_given e = cc

nobody_there : (session_of config with_pages later app 0).0 ≡ ok none
unfolding session_of read_session
nobody_there = refl

handle_otp_submit-send_otp_example :
    (next : Transaction) × ((send_otp config with_pages moment addressed false 0).0
      ≡ ok (otp_page next none none false))
    × ((handle_otp_submit services requests config with_pages later posted 0).0
        ≡ ok (
            complete config with_pages later next app
              (code_session config with_pages later next none)))
handle_otp_submit-send_otp_example =
    handle_otp_submit-send_otp services requests config with_pages moment later addressed false app
      posted (codes "abc-def") 0 0 none none refl may_send served refl
      (subst (λ tx. IsLoadable services requests config with_pages moment later tx app)
        (sym posted_waiting) loadable)
      (omega arith, tt) secret_held secret_given
      (subst
        (λ tx.
          single posted "tx"
          ≡ ok (some (page_token services requests config with_pages moment later tx)))
        (sym posted_waiting) page_given)
      typed_given code_folds (omega arith) (omega arith) (omega arith) nobody_there

send_otp_decoy_example :
    send_otp (with_policy config closed) platform moment addressed false 0
    ≡ send_otp (with_policy config config.otp) platform moment addressed false 0
send_otp_decoy_example =
    send_otp_decoy config platform moment closed config.otp addressed false 0 refl

abbrev signed_in : Session Held
signed_in = touch config.session 10 (code_session config platform moment waiting none)

abbrev minted : Completion
minted = record {
  redirect_uri = codes "app:/cb";
  response_mode = codes "query";
  state = none;
  code =
      issue_code toy_aead no_codec 10 60 "j2" (7 ∷ []) (codes "k") waiting signed_in
        (subject_of config platform moment app signed_in)
        (told_email config platform moment app signed_in);
  session = signed_in;
  remember = leave;
}

completes : (submit_otp config platform moment waiting app code_params 0).0 ≡ ok (completed minted)
unfolding submit_otp after_verdict verdict_on accept_code complete drawn with_otp single get_all
    session_of read_session verify_code normalise_code timing_safe_equal new_transaction remember
completes = refl

waiting_served : otp_allowed config.otp (address_of waiting) ≡ true
unfolding otp_allowed domain_of drawn with_otp smart_access_gateway.Util.Text.split
waiting_served = refl

submit_otp-satisfies_example : satisfies otp_acr waiting.request.acr_values ≡ true
submit_otp-satisfies_example =
    submit_otp-satisfies services requests config platform no_local no_upstreams moment waiting app
      code_params 0 minted reached waiting_served completes
