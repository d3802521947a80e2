-- ===== src/Oauth/Request/Target.antt =====
-- The redirect URI of an accepted request is that of the identified client.
use smart_access_gateway.Prelude.{ok_injective, ◌≡◌, sym, ap, ok, >>=-eq-ok}
use smart_access_gateway.Util.Http.{Params, single}
use smart_access_gateway.Oauth.Request.{
  RequestServices, RequestConfig, Parsed, Identified, identify, parse_answer, parse_terms,
  parse_strength, request_of, parse_identified, parse_authorization_request,
}
use smart_access_gateway.Oauth.Request.Identify.{IsIdentified, identify_sound}

parse_identified-redirect_uri :
    (services : RequestServices) (config : RequestConfig) (params : Params) (who : Identified)
    (p : Parsed)
    → parse_identified services config params who ≡ ok p
    → (p.client ≡ who.client) × (p.request.redirect_uri ≡ who.redirect_uri)
unfolding parse_identified request_of
parse_identified-redirect_uri services config params who p h =
    let (answer, r1, h1) = >>=-eq-ok (parse_answer params who.client) _ h in
    let (terms, r2, h2) = >>=-eq-ok (parse_terms params who.client) _ h1 in
    let (strength, r3, h3) =
      >>=-eq-ok (parse_strength services.number config.default_required params who.client) _ h2 in
    let (hint, r4, h4) = >>=-eq-ok (single params "login_hint") _ h3 in
    let (locales, r5, h5) = >>=-eq-ok (single params "ui_locales") _ h4 in
    (
      ap (λ (q : Parsed). q.client) (sym (ok_injective h5)),
      ap (λ (q : Parsed). q.request.redirect_uri) (sym (ok_injective h5)),
    )

pub parse_authorization_request-identified :
    (services : RequestServices) (config : RequestConfig) (params : Params) (p : Parsed)
    → parse_authorization_request services config params ≡ ok p
    → (who : Identified) × IsIdentified services config params who
      × (p.client ≡ who.client)
      × (p.request.redirect_uri ≡ who.redirect_uri)
unfolding parse_authorization_request
parse_authorization_request-identified services config params p h =
    let (who, identified, rest) = >>=-eq-ok (identify services config params) _ h in
    let (client, uri) = parse_identified-redirect_uri services config params who p rest in
    (who, identify_sound services config params who identified, client, uri)
