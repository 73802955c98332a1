-- ===== src/Issuance/Service/Authorization.antt =====
-- The checks that IssueCredential and GenerateNonce of internal/issuance/service.go begin with.
use fikua_lab_issuer.Accesstoken.{Claims, Upstream, verify}
use fikua_lab_issuer.Accesstoken.Soundness.{IsAccepted, verify-IsAccepted}
use fikua_lab_issuer.Issuance.Interface.{Stores}
use fikua_lab_issuer.Issuance.Service.{authorize, require_bound_thumbprint}
use fikua_lab_issuer.Oauth2.Dpop.{Runtime, compute_ath, dpop_thumbprint}
use fikua_lab_issuer.Oauth2.Dpop.Replay.{validate_dpop_proof_iff}
use fikua_lab_issuer.Oauth2.Dpop.Validity.{IsValidProof}
use fikua_lab_issuer.Platform.{Platform}
use fikua_lab_issuer.Prelude.{
  String, String-eq, concat, refl, ◌≡◌, ap, arith, eq_iff, if◌then◌else◌, sym, ◌==◌, ◌∙◌,
}
use fikua_lab_issuer.Result.Ensures.{Ensures-bind, Ensures-lift, Ensures-pure}
use fikua_lab_issuer.Result.Exec.{err, ok, pair_of, zoom, GoError, and_then-ok, map_error-ok}
use fikua_lab_issuer.Issuance.State.{Service, Setup}

module _ {S Key KeySet : Type 0} (p : Platform Key KeySet) (st : Stores S) (setup : Setup) where
  if_equal :
      (a b : String) (u : Unit {0}) (e : GoError) → (if a == b then ok tt else err e) ≡ ok u → a ≡ b
  if_equal a b u e h = ground (arith, eq_iff a b)

  bound_thumbprint :
      (jkt : String) (key : Key) (message : String) (u : Unit {0})
      → require_bound_thumbprint p st setup jkt key message ≡ ok u
      → dpop_thumbprint p key ≡ ok jkt
  unfolding require_bound_thumbprint
  bound_thumbprint jkt key message u h =
      let (actual, read, same) = and_then-ok _ _ u h in
      map_error-ok _ _ jkt (read ∙ ap ok (sym (if_equal jkt actual u _ same)))

  -- The claims of an accepted token, with a valid proof, for this request and this token, by the
  -- key that the claims name.
  pub record IsAuthorized (rt : Runtime) (up : Upstream KeySet) (access_token header path : String)
      (s : Service S KeySet) (claims : Claims) : Type 0 where
    pub key : Key
    pub verified : (verify p rt.now up access_token s.tokens).0 ≡ ok claims
    pub accepted : IsAccepted p rt.now up access_token s.tokens claims
    pub proof :
        IsValidProof p rt header "POST"
          (concat setup.base_url path)
          (compute_ath p access_token)
          s.jtis
          key
    pub bound : dpop_thumbprint p key ≡ ok claims.jkt

  module _ (rt : Runtime) (up : Upstream KeySet) (access_token header path mismatch : String)
      (s : Service S KeySet) where
    pub authorized :
        (claims : Claims) (s' : Service S KeySet)
        → authorize p st setup rt up access_token header path mismatch s ≡ (ok claims, s')
        → IsAuthorized rt up access_token header path s claims
          × (s'.issuances ≡ s.issuances)
          × (s'.sessions ≡ s.sessions)
    unfolding authorize zoom
    authorized =
        (Ensures-bind _ _ _ λ claims accepted. Ensures-bind _ _ _ λ key proven.
          Ensures-lift _ _ _ λ u bound. Ensures-pure _ _ (
            record {
              key = key;
              verified = accepted;
              accepted =
                  verify-IsAccepted p rt.now up access_token s.tokens claims _
                    (pair_of _ (ok claims) accepted);
              proof = (validate_dpop_proof_iff p rt header "POST" _ _ s.jtis key).0 proven;
              bound = bound_thumbprint claims.jkt key mismatch u bound;
            },
            refl,
            refl,
          )).at
