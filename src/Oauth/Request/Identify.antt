-- ===== src/Oauth/Request/Identify.antt =====
-- What the first stage of a request makes sure of.
use mathlib.Core.Path.{subst}
use smart_access_gateway.Prelude.{
  ok_injective, passed, ◌≡◌, true, not, Option, none, some, Result, ok, err, >>=-eq-ok,
}
use smart_access_gateway.Util.Bytes.{Text}
use smart_access_gateway.Util.Text.{text_Eq}
use smart_access_gateway.Errors.{known, unknown, Thrown, or_fail}
use smart_access_gateway.Oauth.Request.{
  Client, Thrown, single, Identified, redirect_uri_allowed, Params, RequestConfig, identify,
  RequestServices, or_unidentified, Failure,
}
use smart_access_gateway.Oauth.Request.Checks.{not-false}

-- The request names one client, which is known, and one redirect URI, which that client registered.
pub record IsIdentified (services : RequestServices) (config : RequestConfig) (params : Params)
    (who : Identified) : Type 0 where
  pub resolved : services.resolve who.client_id ≡ ok (some who.client)
  pub client_given : single params "client_id" ≡ ok (some who.client_id)
  pub uri_given : single params "redirect_uri" ≡ ok (some who.redirect_uri)
  pub registered :
      redirect_uri_allowed services.parse_url who.client.redirect_uris who.redirect_uri
        config.redirect_uri_schemes
      ≡ true

pub identify_sound :
    (services : RequestServices) (config : RequestConfig) (params : Params) (who : Identified)
    → identify services config params ≡ ok who
    → IsIdentified services config params who
unfolding identify
identify_sound services config params who h =
    let (given, read_id, h1) = >>=-eq-ok (single params "client_id") _ h in
    let (client_id, present_id, h2) = >>=-eq-ok (or_fail _ given) _ h1 in
    let (client, resolved, h3) = >>=-eq-ok (or_unidentified (services.resolve client_id)) _ h2 in
    let (uri, read_uri, h4) = >>=-eq-ok (single params "redirect_uri") _ h3 in
    let (redirect_uri, present_uri, h5) = >>=-eq-ok (or_fail _ uri) _ h4 in
    let (allowed, h6) =
      passed
        (not (
          redirect_uri_allowed services.parse_url client.redirect_uris redirect_uri
            config.redirect_uri_schemes))
        _ _ h5 in
    let found = resolved_client (services.resolve client_id) client resolved in
    let id_given = present _ given client_id present_id in
    let uri_given = present _ uri redirect_uri present_uri in
    subst (IsIdentified services config params) (ok_injective h6) (record {
      resolved = found;
      client_given = rw (← id_given) read_id;
      uri_given = rw (← uri_given) read_uri;
      registered = not-false allowed;
    })
  where
    resolved_client :
        (r : Result Thrown (Option Client)) (client : Client)
        → or_unidentified r ≡ ok client
        → r ≡ ok (some client)
    resolved_client (err (known e)) client k = cc
    resolved_client (err (unknown m)) client k = cc
    resolved_client (ok none) client k = cc
    resolved_client (ok (some c)) client k = cc

    present :
        (e : Failure) (given : Option Text) (value : Text)
        → or_fail e given ≡ ok value
        → given ≡ some value
    present e none value k = cc
    present e (some v) value k = cc
