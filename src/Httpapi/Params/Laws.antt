-- ===== src/Httpapi/Params/Laws.antt =====
-- parseIntParam and extractAccessToken of internal/httpapi/issuance_handlers.go.
use fikua_lab_issuer.Prelude.{Nat-eq}
use Prim.Native.Char.{code}
use Prim.Native.String.{String}
use Prim.Native.String.append
use fikua_lab_issuer.Httpapi.Params.{
  atoi, has_case_insensitive_prefix, in_range, parse_int_param, positive_or, unsigned,
  without_prefix,
}
use fikua_lab_issuer.Oauth2.Fold.{fold_byte}
use fikua_lab_issuer.Prelude.{
  Bool, Option, String-eq, arith, concat, false, none, some, true, ℕ, ◌<◌, ◌≡◌,
}
use fikua_lab_issuer.Prelude.Int.{half_range, pos, ℤ, ℤ-eq, ◌<ℤ◌}
use fikua_lab_issuer.Httpapi.Params.{extract_access_token}
use fikua_lab_issuer.Prelude.{if◌then◌else◌, inl, inr, refl, ◌==◌, ◌⊎◌}

-- An int that counts from one: it is positive and has 63 bits.
unfoldable pub IsCount : ℤ → Type 0
IsCount n = (k : ℕ) × (n ≡ pos k) × (0 < k) × (k < half_range)

in_range-ok :
    (negative : Bool) (o : Option ℕ) (n : ℤ)
    → in_range negative o ≡ some n
    → (n <ℤ pos 1) ≡ false
    → IsCount n
unfolding in_range IsCount ◌<ℤ◌
in_range-ok negative none n h k = cc
in_range-ok false (some m) n h k = (m, ground arith, ground arith, ground arith)
in_range-ok true (some m) n h k = absurd (ground arith)

picked :
    (b : Bool) (x y : Option ℤ) (n : ℤ)
    → (if b then x else y) ≡ some n
    → (x ≡ some n) ⊎ (y ≡ some n)
picked true x y n h = inl h
picked false x y n h = inr h

if-IsCount :
    (b : Bool) (x y : ℤ) → IsCount x → (b ≡ false → IsCount y) → IsCount (if b then x else y)
if-IsCount true x y h k = h
if-IsCount false x y h k = k refl

atoi-ok : (v : String) (n : ℤ) → atoi v ≡ some n → (n <ℤ pos 1) ≡ false → IsCount n
unfolding atoi
atoi-ok String.[] n h k = cc
atoi-ok (String.◌∷◌ c s) n h k =
    elim (picked (code c == 45) (in_range true (unsigned s))
      (if code c == 43
        then in_range false (unsigned s)
        else in_range false (unsigned (String.◌∷◌ c s)))
      n h) [
        | inl e ↦ in_range-ok true (unsigned s) n e k
        | inr e ↦
            elim (picked (code c == 43) (in_range false (unsigned s))
              (in_range false (unsigned (String.◌∷◌ c s))) n e) [
                | inl e' ↦ in_range-ok false (unsigned s) n e' k
                | inr e' ↦ in_range-ok false (unsigned (String.◌∷◌ c s)) n e' k
              ]
      ]

positive_or-IsCount :
    (fallback : ℤ) (o : Option ℤ)
    → ((n : ℤ) → o ≡ some n → (n <ℤ pos 1) ≡ false → IsCount n)
    → IsCount fallback
    → IsCount (positive_or fallback o)
unfolding positive_or
positive_or-IsCount fallback none h k = k
positive_or-IsCount fallback (some n) h k = if-IsCount (n <ℤ pos 1) fallback n k (h n refl)

-- Whatever stands in a query, the page and the size that the listing gets are positive ints.
pub parse_int_param-IsCount :
    (v : String) (fallback : ℤ) → IsCount fallback → IsCount (parse_int_param v fallback)
unfolding parse_int_param
parse_int_param-IsCount v fallback h =
    if-IsCount (v == "") fallback _ h (λ _. positive_or-IsCount fallback (atoi v) (atoi-ok v) h)

-- The characters of two texts are the same but for the case of ASCII letters.
abbrev pub IsSameFolded : String → String → Type 0
IsSameFolded String.[] String.[] = Unit {0}
IsSameFolded String.[] (String.◌∷◌ d t) = ⊥
IsSameFolded (String.◌∷◌ c s) String.[] = ⊥
IsSameFolded (String.◌∷◌ c s) (String.◌∷◌ d t) =
    (fold_byte (code c) ≡ fold_byte (code d)) × IsSameFolded s t

prefix-concat :
    (scheme prefix token : String)
    → IsSameFolded scheme prefix
    → (has_case_insensitive_prefix (concat scheme token) prefix ≡ true)
      × (without_prefix (concat scheme token) prefix ≡ token)
unfolding has_case_insensitive_prefix without_prefix
prefix-concat String.[] String.[] token h = (refl, append.nil token)
prefix-concat String.[] (String.◌∷◌ d t) token h = absurd h
prefix-concat (String.◌∷◌ c s) String.[] token h = absurd h
prefix-concat (String.◌∷◌ c s) (String.◌∷◌ d t) token (h, k) =
    rw (append.cons c s token)
      (ground (arith, (prefix-concat s t token k).0, (prefix-concat s t token k).1))

not_bearer :
    (scheme token : String)
    → IsSameFolded scheme "DPoP "
    → has_case_insensitive_prefix (concat scheme token) "Bearer " ≡ false
unfolding has_case_insensitive_prefix fold_byte
not_bearer String.[] token h = absurd h
not_bearer (String.◌∷◌ c s) token (h, k) = rw (append.cons c s token) (ground arith)

-- A token after a scheme that is `Bearer` or `DPoP` in any case, and a blank, is the token that is
-- extracted.
pub extract_access_token-concat :
    (scheme token : String)
    → IsSameFolded scheme "Bearer " ⊎ IsSameFolded scheme "DPoP "
    → extract_access_token (concat scheme token) ≡ token
unfolding extract_access_token
extract_access_token-concat scheme token (inl h) =
    let (found, rest) = prefix-concat scheme "Bearer " token h in rw found rest
extract_access_token-concat scheme token (inr h) =
    let (found, rest) = prefix-concat scheme "DPoP " token h in
    rw (not_bearer scheme token h) (rw found rest)
