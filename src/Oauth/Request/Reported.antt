-- ===== src/Oauth/Request/Reported.antt =====
-- Which errors of an authorisation request may be sent to a redirect URI.
use smart_access_gateway.Prelude.{
  ℕ, String, ◌≡◌, refl, Bool, true, false, Option, none, some, List, [], ◌∷◌, arith, Result, ok,
  err, ◌>>=◌, throw_if,
}
use smart_access_gateway.Util.Bytes.{Text}
use smart_access_gateway.Util.Http.{Params, get_all, one_of, single}
use smart_access_gateway.Errors.{Failure, oauth, Thrown, known, unknown, or_fail}
use smart_access_gateway.Clients.{Client}
use smart_access_gateway.Oauth.Request.{
  RequestServices, RequestConfig, Identified, unredirected, or_unidentified, identify,
  parse_identified, parse_authorization_request,
}
use smart_access_gateway.Oauth.Request.Identify.{IsIdentified, identify_sound}

-- An `OAuthError` that is thrown as such and may be relayed.
abbrev pub may_redirect : Failure → Bool
may_redirect (oauth e) = e.redirectable
may_redirect other = false

one_of-may_redirect :
    (name : String) (given : List Text) (f : Failure)
    → one_of name given ≡ err f
    → may_redirect f ≡ false
one_of-may_redirect name [] f h = cc
one_of-may_redirect name ([] ∷ []) f h = cc
one_of-may_redirect name ((c ∷ value) ∷ []) f h = cc
one_of-may_redirect name (a ∷ b ∷ rest) f h = ground arith

single-may_redirect :
    (params : Params) (name : String) (f : Failure)
    → single params name ≡ err f
    → may_redirect f ≡ false
unfolding single
single-may_redirect params name f h = one_of-may_redirect name (get_all params name) f h

-- No error of the step may be redirected.
abbrev pub Quiet : {A : Type 0} → Result Failure A → Type 0
Quiet m = (f : Failure) → m ≡ err f → may_redirect f ≡ false

ok-Quiet : {A : Type 0} (a : A) → Quiet (ok a)
ok-Quiet a f h = cc

Quiet->>= :
    {A B : Type 0} (m : Result Failure A) (k : A → Result Failure B)
    → Quiet m
    → ((a : A) → Quiet (k a))
    → Quiet (m >>= k)
Quiet->>= (ok a) k h rest f e = rest a f e
Quiet->>= (err g) k h rest f e = h f cc

or_fail-Quiet :
    {A : Type 0} (c d : String) (status : ℕ) (given : Option A)
    → Quiet (or_fail (unredirected c d status) given)
or_fail-Quiet c d status none f e = ground arith
or_fail-Quiet c d status (some a) f e = cc

or_unidentified-Quiet : (r : Result Thrown (Option Client)) → Quiet (or_unidentified r)
or_unidentified-Quiet (err (known e)) f h = ground arith
or_unidentified-Quiet (err (unknown m)) f h = ground arith
or_unidentified-Quiet (ok none) f h = ground arith
or_unidentified-Quiet (ok (some c)) f h = cc

throw_if-Quiet :
    (b : Bool) (c d : String) (status : ℕ) → Quiet (throw_if b (unredirected c d status))
throw_if-Quiet false c d status f h = cc
throw_if-Quiet true c d status f h = ground arith

identify-Quiet :
    (services : RequestServices) (config : RequestConfig) (params : Params)
    → Quiet (identify services config params)
unfolding identify
identify-Quiet services config params =
    Quiet->>= (single params "client_id") _ (single-may_redirect params "client_id") (λ given.
      Quiet->>= (or_fail _ given) _ (or_fail-Quiet _ _ _ given) (λ client_id.
        Quiet->>= (or_unidentified (services.resolve client_id)) _ (or_unidentified-Quiet _)
          (λ client.
            Quiet->>= (single params "redirect_uri") _ (single-may_redirect params "redirect_uri")
              (λ uri. Quiet->>= (or_fail _ uri) _ (or_fail-Quiet _ _ _ uri) (λ redirect_uri.
                Quiet->>= (throw_if _ _) _ (throw_if-Quiet _ _ _ _) (λ u. ok-Quiet _))))))

-- An error of a request that may be redirected is raised only after the client was found and the
-- request's redirect URI is one that this client registered, with an allowed scheme: the request
-- has one client_id, which resolves to that client, and one redirect_uri.
pub parse_authorization_request-reported :
    (services : RequestServices) (config : RequestConfig) (params : Params) (f : Failure)
    → parse_authorization_request services config params ≡ err f
    → may_redirect f ≡ true
    → (who : Identified) × IsIdentified services config params who
unfolding parse_authorization_request
parse_authorization_request-reported services config params f h loud =
    go (identify services config params) refl h
  where
    go :
        (r : Result Failure Identified)
        → identify services config params ≡ r
        → (r >>= parse_identified services config params) ≡ err f
        → (who : Identified) × IsIdentified services config params who
    go (ok who) e k = (who, identify_sound services config params who e)
    go (err g) e k =
        let same : g ≡ f = cc in
        let quiet = identify-Quiet services config params f (rw (← same) e) in absurd cc
