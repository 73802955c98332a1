-- ===== src/Issuance/Service/Nonce.antt =====
-- GenerateNonce of internal/issuance/service.go: the nonce that it answers with.
use fikua_lab_issuer.Session.{Store}
use fikua_lab_issuer.Accesstoken.{Claims, Upstream}
use fikua_lab_issuer.Issuance.Interface.{Stores}
use fikua_lab_issuer.Issuance.Service.{authorize, generate_nonce}
use fikua_lab_issuer.Issuance.Service.Authorization.{IsAuthorized, authorized}
use fikua_lab_issuer.Issuance.State.{Service, Setup}
use fikua_lab_issuer.Oauth2.Dpop.{Runtime}
use fikua_lab_issuer.Platform.{Platform}
use fikua_lab_issuer.Prelude.{
  String, String-eq, ap, eq_iff, inl, inr, refl, true, ◌==◌, ◌∙◌, ◌≡◌, ◌⊎◌,
}
use fikua_lab_issuer.Result.Ensures.{Ensures-bind, Ensures-if, Ensures-known, Ensures-pure}
use fikua_lab_issuer.Result.Exec.{Exec, ok, pair_of, pure, ◌>>=◌}
use fikua_lab_issuer.Session.{register_nonce, validate_nonce}
use fikua_lab_issuer.Session.Nonces.{validate-register}

module _ {S Key KeySet : Type 0} (p : Platform Key KeySet) (st : Stores S) (setup : Setup)
    (rt : Runtime) (up : Upstream KeySet) (drawn access_token header : String)
    (s : Service S KeySet) where
  -- What an answer of the nonce endpoint comes with.
  pub record IsNonceAnswer (nonce : String) (s' : Service S KeySet) : Type 0 where
    pub drawn_nonce : nonce ≡ drawn
    pub accepts : (validate_nonce nonce s'.sessions).0 ≡ true
    pub checked :
        (access_token ≡ "")
        ⊎ ((claims : Claims) × IsAuthorized p st setup rt up access_token header "/oid4vci/v1/nonce"
              (record s { sessions = register_nonce drawn s.sessions })
              claims)

  registered_passes :
      (t : Store) → t ≡ register_nonce drawn s.sessions → (validate_nonce drawn t).0 ≡ true
  registered_passes t q =
      ap (λ u. (validate_nonce drawn u).0) q ∙ (validate-register drawn drawn s.sessions).0

  -- An answer of the nonce endpoint is the drawn nonce, which passes the next validation; and if the
  -- request came with an access token, the token was accepted, with a valid DPoP proof by its key.
  pub generate_nonce-IsNonceAnswer :
      (nonce : String) (s' : Service S KeySet)
      → generate_nonce p st setup rt up drawn access_token header s ≡ (ok nonce, s')
      → IsNonceAnswer nonce s'
  unfolding generate_nonce
  generate_nonce-IsNonceAnswer =
      let t : Service S KeySet = record s { sessions = register_nonce drawn s.sessions } in
      let check : Exec (Service S KeySet) Claims =
        authorize p st setup rt up access_token header "/oid4vci/v1/nonce"
          "DPoP key mismatch at nonce endpoint" in
      (Ensures-known _ _ s tt t refl (
        Ensures-if (access_token == "") (pure drawn) (check >>= λ _. pure drawn) t
          (λ absent. Ensures-pure _ _ (record {
            drawn_nonce = refl;
            accepts = registered_passes t.sessions refl;
            checked = inl ((eq_iff access_token "").0 absent);
          }))
          (λ present.
            Ensures-bind check (λ _. pure drawn) t
              λ claims passed. Ensures-pure _ _ (
                let (is_authorized, _, same) =
                  authorized p st setup rt up access_token header "/oid4vci/v1/nonce"
                    "DPoP key mismatch at nonce endpoint" t claims _
                    (pair_of _ (ok claims) passed) in
                record {
                  drawn_nonce = refl;
                  accepts = registered_passes _ same;
                  checked = inr (claims, is_authorized);
                })))).at
