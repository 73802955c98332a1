-- ===== src/Oauth2/Dpop/Errors.antt =====
-- ValidateDPoPProof of internal/oauth2/dpop.go: the answers to refused proofs.
use fikua_lab_issuer.Oauth2.Dpop.{Runtime, accept_jti, validate_dpop_proof}
use fikua_lab_issuer.Platform.{Platform}
use fikua_lab_issuer.Prelude.{List, String, String-eq}
use fikua_lab_issuer.Result.Exec.{GoError, invalid_request}
use fikua_lab_issuer.Result.Raises.{IsException, Raises, raises_rules}

module _ {Key KeySet : Type 0} (p : Platform Key KeySet) where
  accept_jti-Raises :
      {P : GoError → Type 0} (order : List String → List String) (jti : String)
      → Raises P (accept_jti order jti)
  unfolding accept_jti
  accept_jti-Raises order jti = record { at = λ s x q. cc }

  -- Every error of the validation is an exception with status 400 and code invalid_request.
  pub validate_dpop_proof_errors :
      (rt : Runtime) (header htm htu ath : String)
      → Raises (IsException 400 invalid_request) (validate_dpop_proof p rt header htm htu ath)
  unfolding validate_dpop_proof
  validate_dpop_proof_errors rt header htm htu ath =
      search (raises_rules, accept_jti-Raises) depth 40
