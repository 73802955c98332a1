-- ===== src/Oid4vci/Proof/Validity.antt =====
-- ValidateProofJWT of internal/oid4vci/proof.go: the key proofs that pass.
use fikua_lab_issuer.Oauth2.Dpop.{only}
use fikua_lab_issuer.Oauth2.Dpop.Validity.{only-eq-some, within_iff}
use fikua_lab_issuer.Oid4vci.Proof.{contains, only_jwk, proof_iat_window, validate_proof_jwt}
use fikua_lab_issuer.Platform.{Headers, Platform, Time, Token}
use fikua_lab_issuer.Prelude.{
  String, String-eq, [], ap, arith, eq_iff, false, refl, some, true, ◌+◌, ◌↔◌, ◌∙◌, ◌∷◌, ◌≡◌, ◌≤◌,
}
use fikua_lab_issuer.Result.Ensures.{
  Ensures-lift, Ensures-mapped, Ensures-option, Ensures-pure, Ensures-require, run-lift, run-mapped,
  run-option, run-require,
}
use fikua_lab_issuer.Result.Exec.{from_option, ok, or_empty, pair_of, pure}

module _ {Key KeySet : Type 0} (p : Platform Key KeySet) where
  -- OID4VCI §8.2.1.1, for the key that the credential is to be bound to.
  pub record IsKeyProof (now : Time) (proof_jwt issuer : String) (key : Key) : Type 0 where
    pub headers : Headers Key
    pub token : Token
    pub iat : Time
    pub one_signature : p.parse_jws proof_jwt ≡ ok (headers ∷ [])
    pub typ : or_empty headers.typ ≡ "openid4vci-proof+jwt"
    pub algorithm : or_empty headers.algorithm ≡ "ES256"
    pub jwk : headers.jwk ≡ some key
    pub no_x5c : headers.has_x5c ≡ false
    pub no_kid : headers.has_kid ≡ false
    pub signed : p.parse_with_key key proof_jwt ≡ some token
    pub audience : contains token.audience issuer ≡ true
    pub issued : token.issued_at ≡ some iat
    pub not_old : now ≤ iat + proof_iat_window
    pub not_ahead : iat ≤ now + proof_iat_window

  only_jwk-ok :
      (h : Headers Key) (key : Key)
      → (only_jwk p h ≡ ok key) ↔ ((h.jwk ≡ some key) × (h.has_x5c ≡ false) × (h.has_kid ≡ false))
  unfolding only_jwk from_option
  only_jwk-ok h key = ground arith

  module _ {S : Type 0} (now : Time) (proof_jwt issuer : String) (s : S) (key : Key) where
    -- What is validated is a key proof, and the validation changes no state.
    pub validated_proof :
        (s' : S)
        → validate_proof_jwt p now proof_jwt issuer s ≡ (ok key, s')
        → IsKeyProof now proof_jwt issuer key
    unfolding validate_proof_jwt
    validated_proof =
        (Ensures-mapped {Q = λ k _. IsKeyProof now proof_jwt issuer k} _ _ _ _ λ signatures parsed.
            Ensures-option _ _ _ _ λ headers single. Ensures-require _ _ _ _ λ typ.
              Ensures-require _ _ _ _ λ alg. Ensures-lift _ _ _ λ k alone.
                Ensures-option _ _ _ _ λ token signed. Ensures-require _ _ _ _ λ audience.
                  Ensures-option _ _ _ _ λ iat issued. Ensures-require _ _ _ _ λ recent.
                    Ensures-pure _ _ (
                      let (jwk, x5c, kid) = (only_jwk-ok headers k).0 alone in
                      record {
                        headers = headers;
                        token = token;
                        iat = iat;
                        one_signature = parsed ∙ ap ok (only-eq-some signatures headers single);
                        typ = (eq_iff _ _).0 typ;
                        algorithm = (eq_iff _ _).0 alg;
                        jwk = jwk;
                        no_x5c = x5c;
                        no_kid = kid;
                        signed = signed;
                        audience = audience;
                        issued = issued;
                        not_old = ((within_iff _ _ _).0 recent).0;
                        not_ahead = ((within_iff _ _ _).0 recent).1;
                      })).at
          key

    pub proven_key :
        IsKeyProof now proof_jwt issuer key
        → validate_proof_jwt p now proof_jwt issuer s ≡ (ok key, s)
    unfolding validate_proof_jwt only pure
    proven_key v =
        run-mapped _ _ (v.headers ∷ []) _ _ v.one_signature
        ∙ run-option _ v.headers _ _ _ refl
        ∙ run-require _ _ _ _ ((eq_iff _ _).1 v.typ)
        ∙ run-require _ _ _ _ ((eq_iff _ _).1 v.algorithm)
        ∙ run-lift _ key _ _ ((only_jwk-ok v.headers key).1 (v.jwk, v.no_x5c, v.no_kid))
        ∙ run-option _ v.token _ _ _ v.signed
        ∙ run-require _ _ _ _ v.audience
        ∙ run-option _ v.iat _ _ _ v.issued
        ∙ run-require _ _ _ _ ((within_iff _ _ _).1 (v.not_old, v.not_ahead))

    -- A proof is validated, with a key, exactly if it is a key proof for that key; the validation
    -- touches no state.
    pub validate_proof_jwt_iff :
        ((validate_proof_jwt p now proof_jwt issuer s).0 ≡ ok key)
        ↔ IsKeyProof now proof_jwt issuer key
    validate_proof_jwt_iff =
        (λ h. validated_proof _ (pair_of _ (ok key) h), λ v. ap (λ r. r.0) (proven_key v))
