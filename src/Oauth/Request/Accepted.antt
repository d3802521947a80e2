-- ===== src/Oauth/Request/Accepted.antt =====
-- What an accepted authorisation request satisfies.
use mathlib.Core.Path.{subst}
use smart_access_gateway.Prelude.{
  ok_injective, ok_injective, ok_injective, ok_injective, String, ◌≡◌, refl, true, List, ok,
  >>=-eq-ok, includes, All, nat_eq, string_eq,
}
use smart_access_gateway.Util.Bytes.{Text}
use smart_access_gateway.Util.Text.{text_Eq}
use smart_access_gateway.Oauth.Request.{
  parse_answer, parse_terms, parse_strength, request_of, Answer, Terms, Strength, Number,
  parse_identified, parse_authorization_request, required_acr, check_max_age, Client, single,
  Identified, redirect_uri_allowed, Params, Parsed, RequestConfig, response_modes, response_types,
  identify, check_response_mode, check_response_type, RequestServices, check_alg, check_prompt,
  check_scope, check_challenge,
}
use smart_access_gateway.Oauth.Request.Checks.{
  IsProtected, check_challenge_sound, IsScoped, check_scope_sound, IsPrompt, check_prompt_sound,
  add_floor-All, IsAlg, check_alg_sound, check_response_type_sound, check_response_mode_sound,
}
use smart_access_gateway.Oauth.Request.Identify.{identify_sound}

-- What the gateway may rely on of a request that it accepted.
pub record IsAccepted (services : RequestServices) (config : RequestConfig) (p : Parsed)
    : Type 0 where
  pub redirect :
      redirect_uri_allowed services.parse_url p.client.redirect_uris p.request.redirect_uri
        config.redirect_uri_schemes
      ≡ true
  pub response_type : includes p.request.response_type response_types ≡ true
  pub response_mode : includes p.request.response_mode response_modes ≡ true
  pub scope : IsScoped p.client.scopes p.request.scope
  pub pkce :
      IsProtected p.client.require_pkce p.request.code_challenge p.request.code_challenge_method
  pub prompt : IsPrompt p.request.prompt
  pub floor : All (λ a. includes a p.request.acr_values ≡ true) p.client.acr_values
  pub alg : IsAlg p.client.id_token_signed_response_alg p.request.id_token_alg

abbrev IsAnswered : Client → Answer → Type 0
IsAnswered client answer =
    (includes answer.response_type response_types ≡ true)
    × (includes answer.response_mode response_modes ≡ true)
    × IsScoped client.scopes answer.scope

parse_answer_sound :
    (params : Params) (client : Client) (answer : Answer)
    → parse_answer params client ≡ ok answer
    → IsAnswered client answer
unfolding parse_answer
parse_answer_sound params client answer h =
    let (state, r1, h1) = >>=-eq-ok (single params "state") _ h in
    let (given_type, r2, h2) = >>=-eq-ok (single params "response_type") _ h1 in
    let (type, r3, h3) = >>=-eq-ok (check_response_type given_type) _ h2 in
    let (given_mode, r4, h4) = >>=-eq-ok (single params "response_mode") _ h3 in
    let (mode, r5, h5) = >>=-eq-ok (check_response_mode given_mode) _ h4 in
    let (given_scope, r6, h6) = >>=-eq-ok (single params "scope") _ h5 in
    let (scope, r7, h7) = >>=-eq-ok (check_scope client.scopes given_scope) _ h6 in
    subst (IsAnswered client) (ok_injective h7) (
      check_response_type_sound given_type type r3,
      check_response_mode_sound given_mode mode r5,
      check_scope_sound client.scopes given_scope scope r7,
    )

abbrev AreTerms : Client → Terms → Type 0
AreTerms client terms =
    IsProtected client.require_pkce terms.challenge.challenge terms.challenge.method
    × IsPrompt terms.prompt

parse_terms_sound :
    (params : Params) (client : Client) (terms : Terms)
    → parse_terms params client ≡ ok terms
    → AreTerms client terms
unfolding parse_terms
parse_terms_sound params client terms h =
    let (given, r1, h1) = >>=-eq-ok (single params "code_challenge") _ h in
    let (method, r2, h2) = >>=-eq-ok (single params "code_challenge_method") _ h1 in
    let (challenge, r3, h3) = >>=-eq-ok (check_challenge client.require_pkce given method) _ h2 in
    let (nonce, r4, h4) = >>=-eq-ok (single params "nonce") _ h3 in
    let (raw, r5, h5) = >>=-eq-ok (single params "prompt") _ h4 in
    let (prompt, r6, h6) = >>=-eq-ok (check_prompt raw) _ h5 in
    subst (AreTerms client) (ok_injective h6) (
      check_challenge_sound client.require_pkce given method challenge r3,
      check_prompt_sound raw prompt r6,
    )

abbrev IsStrong : Client → Strength → Type 0
IsStrong client strength =
    All (λ a. includes a strength.acr_values ≡ true) client.acr_values
    × IsAlg client.id_token_signed_response_alg strength.id_token_alg

parse_strength_sound :
    (number : Text → Number) (defaults : List String) (params : Params) (client : Client)
    (strength : Strength)
    → parse_strength number defaults params client ≡ ok strength
    → IsStrong client strength
unfolding parse_strength required_acr
parse_strength_sound number defaults params client strength h =
    let (raw, r1, h1) = >>=-eq-ok (single params "max_age") _ h in
    let (age, r2, h2) = >>=-eq-ok (check_max_age number raw) _ h1 in
    let (acr, r3, h3) = >>=-eq-ok (single params "acr_values") _ h2 in
    let (given, r4, h4) = >>=-eq-ok (single params "id_token_signed_response_alg") _ h3 in
    let (alg, r5, h5) = >>=-eq-ok (check_alg client.id_token_signed_response_alg given) _ h4 in
    subst (IsStrong client) (ok_injective h5) (
      add_floor-All _ client.acr_values _ refl,
      check_alg_sound client.id_token_signed_response_alg given alg r5,
    )

parse_identified-IsAccepted :
    (services : RequestServices) (config : RequestConfig) (params : Params) (who : Identified)
    (p : Parsed)
    → redirect_uri_allowed services.parse_url who.client.redirect_uris who.redirect_uri
        config.redirect_uri_schemes
      ≡ true
    → parse_identified services config params who ≡ ok p
    → IsAccepted services config p
unfolding parse_identified request_of
parse_identified-IsAccepted services config params who p redirect h =
    let (answer, r1, h1) = >>=-eq-ok (parse_answer params who.client) _ h in
    let (terms, r2, h2) = >>=-eq-ok (parse_terms params who.client) _ h1 in
    let (strength, r3, h3) =
      >>=-eq-ok (parse_strength services.number config.default_required params who.client) _ h2 in
    let (hint, r4, h4) = >>=-eq-ok (single params "login_hint") _ h3 in
    let (locales, r5, h5) = >>=-eq-ok (single params "ui_locales") _ h4 in
    let answered = parse_answer_sound params who.client answer r1 in
    let proved = parse_terms_sound params who.client terms r2 in
    let strong = parse_strength_sound services.number _ params who.client strength r3 in
    subst (IsAccepted services config) (ok_injective h5) (record {
      redirect = redirect;
      response_type = answered.0;
      response_mode = answered.1;
      scope = answered.2;
      pkce = proved.0;
      prompt = proved.1;
      floor = strong.0;
      alg = strong.1;
    })

-- An accepted request names a redirect URI that its client registered and whose scheme is allowed,
-- asks for the code flow in a response mode that is served, asks for openid and only for scopes
-- that are supported and that the client may have, carries a well-formed S256 challenge unless the
-- client needs none, combines prompt=none with nothing, asks for all that the client's floor asks,
-- and keeps the signing algorithm that the client registered.
pub parse_authorization_request-IsAccepted :
    (services : RequestServices) (config : RequestConfig) (params : Params) (p : Parsed)
    → parse_authorization_request services config params ≡ ok p
    → IsAccepted services config p
unfolding parse_authorization_request
parse_authorization_request-IsAccepted services config params p h =
    let (who, identified, rest) = >>=-eq-ok (identify services config params) _ h in
    parse_identified-IsAccepted services config params who p
      ((identify_sound services config params who identified).registered) rest
