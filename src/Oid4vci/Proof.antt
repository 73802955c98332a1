-- ===== src/Oid4vci/Proof.antt =====
-- internal/oid4vci/proof.go: the wallet's key proof.
pub mod Validity
use fikua_lab_issuer.Oauth2.Dpop.{only, within}
use fikua_lab_issuer.Platform.{Headers, Platform, Time, second}
use fikua_lab_issuer.Prelude.{
  Bool, List, Option, String, String-eq, [], concat, false, if◌then◌else◌, ltb, nat_eq, none, some,
  true, ℕ, ◌*◌, ◌+◌, ◌==◌, ◌∷◌,
}
use fikua_lab_issuer.Result.Exec.{
  Exec, GoError, Result, and_then, bad_request, err, error_text, from_option, invalid_proof, lift,
  map_error, ok, or_empty, plain, pure, require, ◌>>=◌, ◌>>◌,
}

abbrev pub proof_iat_window : ℕ
proof_iat_window = 300 * second

abbrev unproven : String → GoError
unproven description = bad_request invalid_proof description

unfoldable pub contains : List String → String → Bool
contains [] v = false
contains (s ∷ list) v = if s == v then true else contains list v

-- `keyRefs`
abbrev key_refs : Bool → Bool → Bool → ℕ
key_refs jwk x5c kid = (if jwk then 1 else 0) + (if x5c then 1 else 0) + (if kid then 1 else 0)

abbrev is_some : {A : Type 0} → Option A → Bool
is_some none = false
is_some (some _) = true

module _ {Key KeySet : Type 0} (p : Platform Key KeySet) where
  -- The switch over the key references; what passes it has the jwk alone.
  unfoldable pub only_jwk : Headers Key → Result Key
  only_jwk headers =
      if nat_eq (key_refs (is_some headers.jwk) headers.has_x5c headers.has_kid) 0
      then err (unproven "Proof must contain exactly one of jwk, x5c, or kid header parameters")
      else if ltb 1 (key_refs (is_some headers.jwk) headers.has_x5c headers.has_kid)
      then err (
          unproven
            "Proof must contain exactly one of jwk, x5c, or kid — multiple key references found")
      else from_option headers.jwk (unproven "Only jwk key binding method is supported")

  unfoldable pub validate_proof_jwt :
      {S : Type 0} → Time → (proof_jwt expected_issuer : String) → Exec S Key
  validate_proof_jwt now proof_jwt expected_issuer = do
    signatures ← lift (
        map_error (λ e. unproven (concat "Invalid proof: " (error_text e))) (p.parse_jws proof_jwt))
    headers ←
        lift (from_option (only signatures) (unproven "Proof must have exactly one signature"))
    require (or_empty headers.typ == "openid4vci-proof+jwt")
        (unproven "Proof typ must be openid4vci-proof+jwt")
    require (or_empty headers.algorithm == "ES256") (unproven "Proof must use ES256")
    key ← lift (only_jwk headers)
    token ← lift (from_option (p.parse_with_key key proof_jwt) (unproven "Proof signature invalid"))
    require (contains token.audience expected_issuer)
        (unproven "Proof aud must be the credential issuer")
    iat ← lift (from_option token.issued_at (unproven "Proof must contain iat claim"))
    require (within proof_iat_window now iat) (unproven "Proof expired")
    pure key

  -- The nonce claim, without checking the signature again: empty where it has none, an error where
  -- the proof cannot be parsed.
  unfoldable pub proof_nonce : String → Result String
  proof_nonce proof_jwt =
      and_then
        (from_option (p.parse_unverified proof_jwt) (plain "oid4vci: parsing proof for nonce"))
        λ token. ok (or_empty (token.claim "nonce"))
