-- ===== src/Util/Bytes/Digits.antt =====
-- Texts as code units, and the base64 alphabet.
use Prim.Native.Char.{code}
use smart_access_gateway.Prelude.{
  ℕ, suc, ◌<◌, String, List, [], ◌∷◌, get_or, ◌==◌, nat_eq, string_eq, if◌then◌else◌,
}

abbrev pub Text : Type 0
Text = List ℕ

abbrev pub codes : String → Text
codes (String.◌∷◌ first rest) = code first ∷ codes rest
codes String.[] = []

abbrev pub IsByte : ℕ → Type 0
IsByte b = b < 256

-- `B64_ALPHA`
unfoldable pub alphabet : Text
alphabet = codes "ABCDEFGHIJKLMNOPQRSTUVWXYZabcdefghijklmnopqrstuvwxyz0123456789+/"

unfoldable pub digit : ℕ → ℕ
unfolding alphabet
digit i = get_or alphabet i 0

-- `text.indexOf(c)`, and the length where there is no occurrence.
unfoldable pub index_of : ℕ → Text → ℕ
index_of c [] = 0
index_of c (x ∷ xs) = let later = suc (index_of c xs) in if x == c then 0 else later
