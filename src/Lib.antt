-- ===== src/Lib.antt =====
-- Smart Access Gateway: the core logic of the identity provider, as functions and theorems.
--
-- The gateway keeps its state in sealed tokens that the browser carries. A sign-in starts as an
-- authorisation transaction, proves an address by an emailed code, a local credential or an
-- upstream, becomes a session cookie, and yields an authorisation code that a relying party redeems
-- at the token endpoint. What cannot be sealed, because the holder of a token could present an old
-- copy, goes to an optional state store: single use of codes and client assertions, revocation of
-- sessions, and the counters of the rate limits.
--
-- Which file models which part (paths from the root of the repository):
--   Prelude      Boolean tests, lists over native numbers, results, insertion-ordered maps.
--   Store        src/store/index.js: the interface of the store, as operations and laws.
--   Store.Memory src/store/index.js, createMemoryStore: `claim`, `has`, `increment`.
--   Store.Guard  adapters/cloudflare/state-do.js, StateGuard: `fetch` and `alarm` on one key.
--   Store.Calls  the calls that other requests make of any store in between.
--   Util.Bytes   src/util/bytes.js: `b64u`, `unb64u`, `timing_safe_equal`.
--   Util.Text    case folding, splitting and equality of texts, as the language has them.
--   Util.Http    src/util/http.js: `single`.
--   Util.Cors    src/util/cors.js.      Util.Ip  src/util/ip.js, the IPv4 half.
--   Crypto.Seal  src/crypto/secrets.js: `seal` and `unseal`.
--   Crypto.Jose  src/crypto/jose.js: `decode_jwt`, `verify_compact`, `select_jwk`,
--                `validate_claims`.
--   Session      src/session.js.        Errors   src/util/errors.js.
--   Oauth.Transaction src/oauth/transaction.js.  Oauth.Code  src/oauth/code.js.
--   Oauth.ClientAuth  src/oauth/clientauth.js and `verifyDigest` of src/crypto/secrets.js.
--   Otp          src/otp.js.            Identity src/identity.js.
--   Acr          src/acr.js.            Limits   src/store/limits.js.
--   Clients      src/clients/index.js: registrations, `redirect_uri_allowed`, `resolve_client`.
--   Profile      src/profile.js: `relayed_claims`, `outbound_claims`.
--   Oauth.Request     src/oauth/request.js.      Oauth.Tokens  src/oauth/tokens.js.
--   Endpoints.Token   src/endpoints/token.js: `handle_token`.
--   Endpoints.Userinfo  src/endpoints/userinfo.js: `handle_userinfo`.
--   Endpoints.Authorize src/endpoints/authorize.js: `handle_authorize`, the handlers of the pages,
--                `decide`, `route`, `send_otp`, `complete`, the flow as a step relation, in Local
--                the sign-in by password and second factor, with `verify_password` of
--                src/local-identities/index.js, and in Callback the return from an upstream, which
--                is `handleCallback` from the state that is opened, and `offer_fallback`.
--   Totp         src/local-identities/totp.js.   RememberMe  src/remember-me.js.
--   Examples     concrete runs, at which the theorems are applied.
--
-- Names are those of the source in snake case. A text that the code looks into is the list of its
-- UTF-16 code units; one that it only compares is a string. A thrown error is a value of `Result`.
-- The clock, random bytes and identifiers are arguments. A handler that calls the store takes and
-- returns the state of the store, and takes the store as a value of `StateStore`, so that its
-- theorems hold for every store that keeps the laws; `memory_state_store` shows that the in-process
-- one does. What other requests do in between is an explicit list of calls.
--
-- Numbers are natural numbers. Where the code computes on 32-bit integers (base64url, base32), the
-- wrap-around is written out. Case folding and white space are those of ASCII. Recursion is on the
-- structure of the input everywhere; the one loop of the program that may not end, the draw of a
-- code from random bytes, takes its rounds of bytes as a list, with a theorem that says how many
-- usable bytes are enough.
--
-- Web Crypto, JSON and the network are parameters: the cipher and its laws in `Aead`, the codec of
-- a payload in `Codec`, the signature check in `Platform`, the digests and the fetch of a key set in
-- `Services`, the URL parser and `Number` in `RequestServices`. The endpoints have as parameters what
-- comes from parts that are not modelled: the signature of the id_token in `TokenContext`; the mail
-- sender, the provider registry, the local account store and the claims guessed from an address in
-- `Endpoints.Authorize.Platform`, and the records of local accounts, Argon2id and the check of a
-- second factor in `LocalStore`, and the exchange with an upstream and the links of local accounts in
-- `CallbackContext`.
--
-- A page is a value that carries the transaction it seals; the markup, and the fields of a
-- transaction that are only shown, are left out. Of the interactive flow the opening of the state that
-- an upstream sends back is not modelled: the step relation lets an upstream return with any
-- transaction in its state. Nor are the metadata documents of clients, sign-out, the router, the configuration parser, the rendering of pages, email delivery,
-- the upstream protocols, key management, local identity records and the adapters of the platforms.
pub mod Prelude
pub mod Store
pub mod Util
pub mod Crypto
pub mod Session
pub mod Errors
pub mod Oauth
pub mod Clients
pub mod Profile
pub mod Endpoints
pub mod Otp
pub mod Identity
pub mod Acr
pub mod Limits
pub mod Totp
pub mod RememberMe
pub mod Examples
