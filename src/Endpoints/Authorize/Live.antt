-- ===== src/Endpoints/Authorize/Live.antt =====
-- A code that was mailed can be typed back.
use smart_access_gateway.Prelude.{
  ◌+◌, ◌≤◌, ◌<◌, refl, ap, Bool, true, false, Option, none, some, ok, length, ltb, nat_eq,
  string_eq,
}
use smart_access_gateway.Util.Bytes.{Text}
use smart_access_gateway.Util.Http.{Params, single}
use smart_access_gateway.Session.{Session}
use smart_access_gateway.Profile.{Held}
use smart_access_gateway.Limits.{check_otp_send_allowed}
use smart_access_gateway.Otp.{otp_allowed, normalise_code, accepted}
use smart_access_gateway.Otp.Verify.{verify_code-eq-accepted_iff}
use smart_access_gateway.Clients.{Client}
use smart_access_gateway.Oauth.Transaction.{with_otp}
use smart_access_gateway.Endpoints.Authorize.{Transaction, otp_page, FlowConfig, Platform, Moment}
use smart_access_gateway.Endpoints.Authorize.Complete.{session_of, complete}
use smart_access_gateway.Endpoints.Authorize.Codes.{
  address_of, resend_count, code_digest, drawn, after_limit, send_otp, verdict_on, accept_code,
  after_verdict, code_session, submit_otp,
}
use smart_access_gateway.Prelude.{All, ◌≢◌, [], includes, ◌≡◌, arith}
use smart_access_gateway.Util.Bytes.{IsByte, codes}
use smart_access_gateway.Util.Text.{text_Eq}
use smart_access_gateway.Crypto.Seal.{seal}
use smart_access_gateway.Crypto.Seal.Laws.{unseal-seal}
use smart_access_gateway.Oauth.Transaction.{open_transaction, expired}
use smart_access_gateway.Oauth.Request.{RequestServices, RequestConfig}
use smart_access_gateway.Endpoints.Authorize.Handlers.{load_transaction, handle_otp_submit}

module _ {S : Type 0} (config : FlowConfig) (platform : Platform S) (moment later : Moment) where
  send_otp-served :
      (tx : Transaction) (resend : Bool) (s : S) (dev : Option Text)
      → ltb config.max_resends (resend_count config platform moment tx resend) ≡ false
      → (check_otp_send_allowed platform.keys platform.store config.limits moment.now
          (address_of tx)
          s).0.allowed
        ≡ true
      → otp_allowed config.otp (address_of tx) ≡ true
      → platform.send (address_of tx) moment.code ≡ some dev
      → (send_otp config platform moment tx resend s).0
        ≡ ok (otp_page (drawn config platform moment tx resend) none dev resend)
  unfolding send_otp after_limit
  send_otp-served tx resend s dev few allowed served sent = rw (few, allowed, served, sent) refl

  verdict-accepted :
      (tx : Transaction) (resend : Bool) (submitted : Text)
      → normalise_code submitted ≡ moment.code
      → 0 < length (code_digest config platform moment tx moment.code)
      → later.now ≤ moment.now + config.otp_ttl_seconds
      → 0 < config.max_attempts
      → verdict_on config platform later (drawn config platform moment tx resend) (some submitted)
        ≡ accepted
  unfolding verdict_on drawn with_otp
  verdict-accepted tx resend submitted typed filled live some_left =
      (verify_code-eq-accepted_iff later.now config.max_attempts
          (code_digest config platform moment tx)
          (record {
            digest = code_digest config platform moment tx moment.code;
            exp = moment.now + config.otp_ttl_seconds;
            attempts = 0;
            resends = resend_count config platform moment tx resend;
            iat = moment.now;
          })
          submitted).1
        (filled, ap (code_digest config platform moment tx) typed, live, some_left)

  submit_otp-send_otp :
      (tx : Transaction) (resend : Bool) (client : Client) (params : Params) (submitted : Text)
      (u : S) (existing : Option (Session Held))
      → single params "code" ≡ ok (some submitted)
      → normalise_code submitted ≡ moment.code
      → 0 < length (code_digest config platform moment tx moment.code)
      → later.now ≤ moment.now + config.otp_ttl_seconds
      → 0 < config.max_attempts
      → (session_of config platform later client u).0 ≡ ok existing
      → let next = drawn config platform moment tx resend in
        (submit_otp config platform later next client params u).0
        ≡ ok (
            complete config platform later next client
              (code_session config platform later next existing))
  unfolding submit_otp after_verdict accept_code drawn with_otp
  submit_otp-send_otp tx resend client params submitted u existing given typed filled live some_left
        read =
      rw (given, verdict-accepted tx resend submitted typed filled live some_left, read) refl

module _ {S : Type 0} (services : RequestServices) (requests : RequestConfig) (config : FlowConfig)
    (platform : Platform S) (moment later : Moment) where
  -- The token that a page carries for a transaction.
  abbrev pub page_token : Transaction → Text
  page_token tx = seal platform.aead platform.tx_codec config.first_secret (codes "tx") moment.iv tx

  -- A transaction that a page carries can be loaded: JSON reads it back with its expiry, it is of
  -- this version, its client is registered, and it has not expired.
  pub record IsLoadable (tx : Transaction) (client : Client) : Type 0 where
    pub reads : platform.tx_codec.parse (platform.tx_codec.stringify tx) ≡ some tx
    pub exp : platform.tx_codec.exp tx ≡ some tx.exp
    pub version : tx.v ≡ 1
    pub named : 0 < length tx.request.client_id
    pub resolved : services.resolve tx.request.client_id ≡ ok (some client)
    pub live : later.now ≤ tx.exp

  load_transaction-page_token :
      (tx : Transaction) (client : Client) (params : Params)
      → IsLoadable tx client
      → All IsByte moment.iv
      → includes config.first_secret config.secrets ≡ true
      → config.first_secret ≢ []
      → single params "tx" ≡ ok (some (page_token tx))
      → load_transaction services requests config platform later params
        ≡ ok (some (record { tx = tx; client = client }))
  unfolding load_transaction open_transaction expired
  load_transaction-page_token tx client params loads bytes held ne given =
      let opened =
        unseal-seal platform.aead platform.tx_codec config.first_secret (codes "tx") moment.iv tx
          (omega arith) bytes later.now none config.secrets loads.reads held ne
          (rw loads.exp (ground (arith, loads.live))) refl in
      rw (given, opened, loads.version) (ground (arith, loads.named, loads.live, loads.resolved))

  -- A code that is sent signs its reader in. Suppose that the resends are not used up, the rate
  -- limit allows the mail, the address may use codes, and the mail is accepted. Then the page has
  -- no notice, and whoever posts its token to the code endpoint with a text that folds to the mailed
  -- code, while both the code and the transaction are alive, gets an authorisation code. The digest
  -- of a code is not empty, at least one attempt is configured, the first secret is one of the list
  -- and not empty, the page's transaction can be loaded, and the session cookie can be read.
  pub handle_otp_submit-send_otp :
      (tx : Transaction) (resend : Bool) (client : Client) (params : Params) (submitted : Text)
      (s u : S) (dev : Option Text) (existing : Option (Session Held))
      → ltb config.max_resends (resend_count config platform moment tx resend) ≡ false
      → (check_otp_send_allowed platform.keys platform.store config.limits moment.now
          (address_of tx)
          s).0.allowed
        ≡ true
      → otp_allowed config.otp (address_of tx) ≡ true
      → platform.send (address_of tx) moment.code ≡ some dev
      → IsLoadable (drawn config platform moment tx resend) client
      → All IsByte moment.iv
      → includes config.first_secret config.secrets ≡ true
      → config.first_secret ≢ []
      → single params "tx" ≡ ok (some (page_token (drawn config platform moment tx resend)))
      → single params "code" ≡ ok (some submitted)
      → normalise_code submitted ≡ moment.code
      → 0 < length (code_digest config platform moment tx moment.code)
      → later.now ≤ moment.now + config.otp_ttl_seconds
      → 0 < config.max_attempts
      → (session_of config platform later client u).0 ≡ ok existing
      → (next : Transaction) × ((send_otp config platform moment tx resend s).0
          ≡ ok (otp_page next none dev resend))
        × ((handle_otp_submit services requests config platform later params u).0
            ≡ ok (
                complete config platform later next client
                  (code_session config platform later next existing)))
  unfolding handle_otp_submit
  handle_otp_submit-send_otp tx resend client params submitted s u dev existing few allowed served
        sent loads bytes held ne token given typed filled live some_left read =
      let next = drawn config platform moment tx resend in
      let loaded = load_transaction-page_token next client params loads bytes held ne token in
      (
        next,
        send_otp-served config platform moment later tx resend s dev few allowed served sent,
        rw loaded (
            submit_otp-send_otp config platform moment later tx resend client params submitted u
              existing given typed filled live some_left read),
      )
