-- ===== src/Util/Http.antt =====
-- `single` of src/util/http.js. The parameters of a request are the decoded pairs of
-- `URLSearchParams`, in order.
use Prim.Native.String.{◌++◌ as str_append}
use smart_access_gateway.Prelude.{
  String, Option, none, some, List, [], ◌∷◌, Result, ok, err, ◌==◌, nat_eq, string_eq,
  if◌then◌else◌,
}
use smart_access_gateway.Util.Bytes.{Text}
use smart_access_gateway.Util.Text.{}
use smart_access_gateway.Errors.{Failure, oauth, oauth_error}

abbrev pub Params : Type 0
Params = List (String × Text)

-- `params.getAll(name)`
unfoldable pub get_all : Params → String → List Text
get_all [] name = []
get_all ((key, value) ∷ params) name =
    let rest = get_all params name in if key == name then value ∷ rest else rest

abbrev pub one_of : String → List Text → Result Failure (Option Text)
one_of name [] = ok none
one_of name ([] ∷ []) = ok none
one_of name ((c ∷ value) ∷ []) = ok (some (c ∷ value))
one_of name (a ∷ b ∷ rest) = err (
    oauth
      (oauth_error "invalid_request" (str_append "Duplicate \"" (str_append name "\" parameter"))))

unfoldable pub single : Params → String → Result Failure (Option Text)
single params name = one_of name (get_all params name)
