-- ===== src/Oauth2/Dpop.antt =====
-- internal/oauth2/dpop.go: the validation of a DPoP proof. `Runtime` is what Go's runtime supplies
-- while a request runs: the time, the orders of ranges over maps, and random bytes.
pub mod Validity
pub mod Errors
pub mod Replay
use fikua_lab_issuer.Oauth2.Fold.{equal_fold_ascii}
use fikua_lab_issuer.Oauth2.Jti.{JtiStore, accept}
use fikua_lab_issuer.Platform.{Platform, Time, Url, bytes, second}
use fikua_lab_issuer.Prelude.{
  Bool, List, Option, String, String-eq, [], concat, false, if◌then◌else◌, ltb, none, not, some, ℕ,
  ◌*◌, ◌+◌, ◌==◌, ◌||◌, ◌∷◌,
}
use fikua_lab_issuer.Result.Exec.{
  Exec, GoError, Result, bad_request, err, error_text, from_option, invalid_request, lift,
  map_error, ok, or_empty, plain, pure, require, ◌>>=◌, ◌>>◌,
}
use fikua_lab_issuer.Platform.{Json}
use fikua_lab_issuer.Prelude.Dict.{Dict}

pub record Runtime : Type 0 where
  pub now : Time
  pub order : List String → List String
  -- the order of a range over a map of claims
  pub range : Dict String Json → Dict String Json
  -- what the calls of rand.Read give, in order, while a credential is built
  pub random : ℕ → Result (List ℕ)
  -- session.RandomToken(8) for the subject of a credential
  pub subject : String

abbrev pub dpop_iat_window : ℕ
dpop_iat_window = 300 * second

unfoldable pub single_dpop_header : List String → Result String
single_dpop_header [] = ok ""
single_dpop_header (value ∷ []) = ok value
single_dpop_header (_ ∷ _ ∷ _) =
    err (bad_request invalid_request "Multiple DPoP headers are not allowed")

-- `if len(msg.Signatures()) != 1`
unfoldable pub only : {A : Type 0} → List A → Option A
only (a ∷ []) = some a
only _ = none

-- `if skew := time.Since(iat); skew > window || skew < -window`, negated
unfoldable pub within : ℕ → Time → Time → Bool
within window now iat = not (ltb (iat + window) now || ltb (now + window) iat)

abbrev rejected : String → GoError
rejected description = bad_request invalid_request description

-- `s.Accept(jti)` as a method on the set
unfoldable pub accept_jti : (List String → List String) → String → Exec JtiStore Bool
accept_jti order jti s = (ok (accept order jti s).0, (accept order jti s).1)

module _ {Key KeySet : Type 0} (p : Platform Key KeySet) where
  without_query : Url → String
  without_query u = p.url_string (record u { raw_query = ""; fragment = "" })

  match_urls : String → String → Option Url → Option Url → Bool
  match_urls claimed expected (some c) (some e) = without_query c == without_query e
  match_urls claimed expected _ _ = claimed == expected

  unfoldable pub htu_matches : String → String → Bool
  unfolding match_urls without_query
  htu_matches claimed expected =
      match_urls claimed expected (p.parse_url claimed) (p.parse_url expected)

  unfoldable pub compute_ath : String → String
  compute_ath access_token = p.base64url (p.sha256 (bytes access_token))

  unfoldable pub dpop_thumbprint : Key → Result String
  dpop_thumbprint key = elim (p.thumbprint key) [
    | ok thumbprint ↦ ok (p.base64url thumbprint)
    | err e ↦ err (plain (concat "oauth2: computing DPoP key thumbprint: " (error_text e)))
  ]

  unfoldable pub validate_dpop_proof : Runtime → (header htm htu ath : String) → Exec JtiStore Key
  validate_dpop_proof rt header htm htu ath = do
    require (not (header == "")) (rejected "Missing DPoP proof")
    signatures ← lift (
        map_error (λ e. rejected (concat "Invalid DPoP proof: " (error_text e)))
          (p.parse_jws header))
    headers ← lift (
        from_option (only signatures)
          (rejected "Invalid DPoP proof: expected exactly one signature"))
    require (or_empty headers.typ == "dpop+jwt") (rejected "DPoP typ must be dpop+jwt")
    key ← lift (from_option headers.jwk (rejected "DPoP must contain jwk header"))
    require (not (p.has_private key)) (rejected "DPoP jwk header must not contain a private key")
    require (or_empty headers.algorithm == "ES256") (rejected "DPoP must use ES256")
    token ← lift (from_option (p.parse_with_key key header) (rejected "DPoP signature invalid"))
    require (equal_fold_ascii (or_empty (token.claim "htm")) htm) (rejected "DPoP htm mismatch")
    require (htu_matches (or_empty (token.claim "htu")) htu) (rejected "DPoP htu mismatch")
    iat ← lift (from_option token.issued_at (rejected "DPoP proof expired"))
    require (within dpop_iat_window rt.now iat) (rejected "DPoP proof expired")
    fresh ←
        (if or_empty (token.claim "jti") == ""
          then pure false
          else accept_jti rt.order (or_empty (token.claim "jti")))
    require fresh (rejected "DPoP jti replay detected")
    require (ath == "" || or_empty (token.claim "ath") == ath) (rejected "DPoP ath mismatch")
    pure key
