-- ===== src/Httpapi/Params.antt =====
-- internal/httpapi/issuance_handlers.go: numbers in queries, and access tokens in headers.
pub mod Laws
use fikua_lab_issuer.Prelude.{Nat-eq}
use Prim.Native.Char.{code}
use Prim.Native.String.{String}
use fikua_lab_issuer.Oauth2.Fold.{fold_byte}
use fikua_lab_issuer.Prelude.{
  Bool, Option, String-eq, false, if◌then◌else◌, leb, ltb, none, some, true, ℕ, ◌&&◌, ◌*◌, ◌+◌, ◌-◌,
  ◌==◌,
}
use fikua_lab_issuer.Prelude.Int.{half_range, pos, sub_ℕ, ℤ, ℤ-eq, ◌<ℤ◌}

-- The value of a decimal text after the digits read so far
unfoldable pub digits : ℕ → String → Option ℕ
digits n String.[] = some n
digits n (String.◌∷◌ c s) =
    let rest = digits (10 * n + (code c - 48)) s in
    if leb 48 (code c) && leb (code c) 57 then rest else none

unfoldable pub unsigned : String → Option ℕ
unfolding digits
unsigned String.[] = none
unsigned (String.◌∷◌ c s) = digits 0 (String.◌∷◌ c s)

-- An int of 64 bits, if the number fits.
unfoldable pub in_range : Bool → Option ℕ → Option ℤ
in_range negative none = none
in_range false (some n) = if ltb n half_range then some (pos n) else none
in_range true (some n) = if leb n half_range then some (sub_ℕ 0 n) else none

-- strconv.Atoi: a sign, if any, and decimal digits
unfoldable pub atoi : String → Option ℤ
unfolding unsigned in_range
atoi String.[] = none
atoi (String.◌∷◌ c s) =
    if code c == 45
    then in_range true (unsigned s)
    else if code c == 43
    then in_range false (unsigned s)
    else in_range false (unsigned (String.◌∷◌ c s))

unfoldable pub positive_or : ℤ → Option ℤ → ℤ
positive_or fallback none = fallback
positive_or fallback (some n) = if n <ℤ pos 1 then fallback else n

unfoldable pub parse_int_param : String → ℤ → ℤ
unfolding atoi positive_or
parse_int_param v fallback = if v == "" then fallback else positive_or fallback (atoi v)

-- The comparison is of bytes; a prefix of ASCII characters has one byte for each.
unfoldable pub has_case_insensitive_prefix : String → String → Bool
has_case_insensitive_prefix s String.[] = true
has_case_insensitive_prefix String.[] (String.◌∷◌ d prefix) = false
has_case_insensitive_prefix (String.◌∷◌ c s) (String.◌∷◌ d prefix) =
    let rest = has_case_insensitive_prefix s prefix in
    if fold_byte (code c) == fold_byte (code d) then rest else false

-- `s[len(prefix):]` after a prefix of ASCII characters
unfoldable pub without_prefix : String → String → String
without_prefix s String.[] = s
without_prefix String.[] (String.◌∷◌ d prefix) = String.[]
without_prefix (String.◌∷◌ c s) (String.◌∷◌ d prefix) = without_prefix s prefix

unfoldable pub extract_access_token : String → String
unfolding has_case_insensitive_prefix without_prefix
extract_access_token auth_header =
    if has_case_insensitive_prefix auth_header "Bearer "
    then without_prefix auth_header "Bearer "
    else if has_case_insensitive_prefix auth_header "DPoP "
    then without_prefix auth_header "DPoP "
    else ""
