-- ===== src/Credentialconfig/Labels.antt =====
-- internal/credentialconfig/label.go and scalar.go
use Prim.Native.Char.{code}
use Prim.Native.String.{String}
use fikua_lab_issuer.Platform.{Platform}
use fikua_lab_issuer.Prelude.{
  Bool, List, String-eq, [], concat, false, if◌then◌else◌, ltb, map, not, true, ◌∷◌,
}
use fikua_lab_issuer.Prelude.Texts.{contains_text, join, split}

-- `for _, marker := range markers { if strings.Contains(lower, marker) { return true } }`
unfoldable pub contains_any : String → List String → Bool
contains_any lower [] = false
contains_any lower (marker ∷ markers) =
    let rest = contains_any lower markers in if contains_text lower marker then true else rest

module _ {Key KeySet : Type 0} (p : Platform Key KeySet) where
  -- `strings.ToUpper(w[:1]) + w[1:]`, for a word that is not empty
  unfoldable pub capitalized : String → String
  capitalized String.[] = String.[]
  capitalized (String.◌∷◌ c s) =
      if ltb (code c) 0x80
      then concat (p.to_upper (String.◌∷◌ c String.[])) s
      else p.upper_first_byte (String.◌∷◌ c s)

  unfoldable pub claim_label : String → String
  unfolding capitalized
  claim_label data_identifier = join " " (map capitalized (split 95 data_identifier))

  unfoldable pub is_scalar_type : String → Bool
  unfolding contains_any
  is_scalar_type data_type = not (
      contains_any (p.to_lower data_type)
        ("array" ∷ "object" ∷ "map" ∷ "nationalities" ∷ "place_of_birth" ∷ []))

  unfoldable pub is_date_type : String → Bool
  unfolding contains_any
  is_date_type data_type =
      contains_any (p.to_lower data_type) ("full-date" ∷ "tdate" ∷ "yyyy-mm-dd" ∷ [])
