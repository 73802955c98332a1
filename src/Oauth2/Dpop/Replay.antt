-- ===== src/Oauth2/Dpop/Replay.antt =====
-- ValidateDPoPProof of internal/oauth2/dpop.go: which proofs pass, and proofs that come again.
use mathlib.Core.Bool.{false≢true}
use fikua_lab_issuer.Oauth2.Dpop.{Runtime, validate_dpop_proof}
use fikua_lab_issuer.Oauth2.Dpop.Validity.{IsValidProof, validate_dpop_proof-Accepted, valid_proof}
use fikua_lab_issuer.Oauth2.Jti.{JtiStore}
use fikua_lab_issuer.Platform.{Platform, Token}
use fikua_lab_issuer.Prelude.{String, String-eq, ap, sym, ◌↔◌, ◌∙◌, ◌≡◌, ◌≢◌}
use fikua_lab_issuer.Result.Exec.{ok, pair_of}

module _ {Key KeySet : Type 0} (p : Platform Key KeySet) where
  -- A proof is validated, with a key, exactly if it is a valid proof for that key.
  pub validate_dpop_proof_iff :
      (rt : Runtime) (header htm htu ath : String) (s : JtiStore) (key : Key)
      → ((validate_dpop_proof p rt header htm htu ath s).0 ≡ ok key)
        ↔ IsValidProof p rt header htm htu ath s key
  validate_dpop_proof_iff rt header htm htu ath s key = (
    λ h. (validate_dpop_proof-Accepted p rt header htm htu ath s key _ (pair_of _ (ok key) h)).0,
    λ v. ap (λ r. r.0) (valid_proof p rt header htm htu ath s key v),
  )

  -- Two valid proofs in one header have one proof id.
  same_jti :
      (rt rt' : Runtime) (header htm htm' htu htu' ath ath' : String) (s s' : JtiStore)
      (key key' : Key) (v : IsValidProof p rt header htm htu ath s key)
      (v' : IsValidProof p rt' header htm' htu' ath' s' key')
      → v.token.claim "jti" ≡ v'.token.claim "jti"
  same_jti rt rt' header htm htm' htu htu' ath ath' s s' key key' v v' =
      let same_headers : v.headers ≡ v'.headers = cc (v.one_signature, v'.one_signature) in
      let same_key : key ≡ key' = cc (v.jwk, v'.jwk, same_headers) in
      let same_token : v.token ≡ v'.token = cc (v.signed, v'.signed, same_key) in
      ap (λ (t : Token). t.claim "jti") same_token

  -- A header whose proof has been validated is refused when it is presented next, whatever the
  -- request and the time.
  pub replay_refused :
      (rt rt' : Runtime) (header htm htm' htu htu' ath ath' : String) (s s' : JtiStore)
      (key key' : Key)
      → validate_dpop_proof p rt header htm htu ath s ≡ (ok key, s')
      → (validate_dpop_proof p rt' header htm' htu' ath' s').0 ≢ ok key'
  replay_refused rt rt' header htm htm' htu htu' ath ath' s s' key key' h again =
      let (v, seen) = validate_dpop_proof-Accepted p rt header htm htu ath s key s' h in
      let v' = (validate_dpop_proof_iff rt' header htm' htu' ath' s' key').0 again in
      let same = same_jti rt rt' header htm htm' htu htu' ath ath' s s' key key' v v' in
      false≢true (sym v'.unseen ∙ rw (← same) seen)
