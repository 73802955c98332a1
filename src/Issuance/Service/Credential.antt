-- ===== src/Issuance/Service/Credential.antt =====
-- IssueCredential of internal/issuance/service.go: what stands behind an issued credential.
use mathlib.Core.Path.{subst}
use fikua_lab_issuer.Session.{Store, validate_nonce}
use fikua_lab_issuer.Issuance.Interface.{Stores}
use fikua_lab_issuer.Issuance.Record.{Record}
use fikua_lab_issuer.Oid4vci.Messages.{
  CredentialRequest, CredentialResponse, extract_proof_jwt, success_response,
}
use fikua_lab_issuer.Oid4vci.Proof.{proof_nonce}
use fikua_lab_issuer.Platform.{Platform}
use fikua_lab_issuer.Prelude.{
  Option, String, String-eq, arith, eq_iff, false, none, some, true, ◌≡◌, ◌≢◌, ◌⊎◌, Bool, concat,
  if◌then◌else◌, not, refl, ◌&&◌, ◌==◌, ◌||◌, ap, sym, ◌∙◌,
}
use fikua_lab_issuer.Prelude.Dict.{has}
use fikua_lab_issuer.Result.Ensures.{
  Ensures-bind, Ensures-mapped, Ensures-require, Ensures-last, Ensures-lift, Ensures-pure,
  Ensures-stay,
}
use fikua_lab_issuer.Result.Exec.{
  ok, Result, pair_of, caught, gets, map_error-ok, modify, zoom, ok_injective,
}
use fikua_lab_issuer.Issuance.Service.{validate_proof_nonce, issue_credential}
use fikua_lab_issuer.Issuance.State.{
  Service, Setup, check_configuration, pid_config_id, pid_mdoc_config_id, record_with_data,
}
use fikua_lab_issuer.Accesstoken.{Claims, Upstream}
use fikua_lab_issuer.Issuance.Service.Authorization.{IsAuthorized, authorized}
use fikua_lab_issuer.Oauth2.Dpop.{Runtime}
use fikua_lab_issuer.Oid4vci.Proof.Validity.{IsKeyProof, proven_key, validate_proof_jwt_iff}
use fikua_lab_issuer.Prelude.Int.{ℤ, ℤ-eq}
use fikua_lab_issuer.Issuance.Formats.{build_mdoc_credential, build_sd_jwt_credential}

-- The two configurations that can be requested, each by its id alone.
pub record IsPidRequest (req : CredentialRequest) : Type 0 where
  pub no_identifier : req.credential_identifier ≡ ""
  pub configuration :
      (req.credential_configuration_id ≡ pid_config_id)
      ⊎ (req.credential_configuration_id ≡ pid_mdoc_config_id)

check_configuration-ok :
    (req : CredentialRequest) (u : Unit {0}) → check_configuration req ≡ ok u → IsPidRequest req
unfolding check_configuration
check_configuration-ok req u h = record {
  no_identifier = ground (arith, eq_iff req.credential_identifier "");
  configuration = ground (
    arith,
    eq_iff req.credential_configuration_id pid_config_id,
    eq_iff req.credential_configuration_id pid_mdoc_config_id,
  );
}

record_with_data-ok :
    (found : Option Record) (rec : Record)
    → record_with_data found ≡ ok rec
    → (found ≡ some rec) × (rec.credential_data ≢ "") × (rec.credential_data ≢ "{}")
unfolding record_with_data
record_with_data-ok none rec h = cc
record_with_data-ok (some r) rec h =
    ground (arith, eq_iff r.credential_data "", eq_iff r.credential_data "{}")

pub nonempty : (text : String) → not (text == "") ≡ true → text ≢ ""
nonempty text h = ground (arith, eq_iff text "")

module _ {S Key KeySet : Type 0} (p : Platform Key KeySet) (st : Stores S) (setup : Setup) where
  -- The proof carries a nonce that is registered, or that of the token.
  unfoldable pub IsFreshNonce : (proof_jwt token_c_nonce : String) → Store → Type 0
  IsFreshNonce proof_jwt token_c_nonce t =
      (nonce : String) × (proof_nonce p proof_jwt ≡ ok nonce)
      × (nonce ≢ "")
      × ((has nonce t.nonces ≡ true) ⊎ (nonce ≡ token_c_nonce))

  known_nonce :
      (nonce token_c_nonce : String) (b : Bool) (t : Store)
      → (validate_nonce nonce t).0 ≡ b
      → (b || (not (token_c_nonce == "") && nonce == token_c_nonce)) ≡ true
      → (has nonce t.nonces ≡ true) ⊎ (nonce ≡ token_c_nonce)
  unfolding validate_nonce
  known_nonce nonce token_c_nonce b t h k = ground (arith, eq_iff nonce token_c_nonce)

  pub fresh_nonce :
      (proof_jwt token_c_nonce : String) (s : Service S KeySet) (u : Unit {0})
      (s' : Service S KeySet)
      → validate_proof_nonce p st setup proof_jwt token_c_nonce s ≡ (ok u, s')
      → IsFreshNonce proof_jwt token_c_nonce s.sessions × (s'.issuances ≡ s.issuances)
  unfolding validate_proof_nonce IsFreshNonce
  fresh_nonce proof_jwt token_c_nonce s =
      (Ensures-mapped
        {Q = λ u t. IsFreshNonce proof_jwt token_c_nonce s.sessions × (t.issuances ≡ s.issuances)} _
        _ _ _
        λ nonce read. Ensures-require _ _ _ _ λ present. Ensures-bind _ _ _ λ registered valid.
          Ensures-last _ _ _ λ match. (
            (
              nonce,
              read,
              nonempty nonce present,
              known_nonce nonce token_c_nonce registered s.sessions (ok_injective _ _ valid) match,
            ),
            refl,
          )).at

  -- The credential that the record's configuration asks for.
  unfoldable pub credential_of : Runtime → CredentialRequest → Key → Record → ℤ → Result String
  credential_of rt req wallet_key rec idx =
      let status_uri : String = concat setup.base_url "/oid4vci/v1/status-list/pid" in
      if req.credential_configuration_id == pid_mdoc_config_id
      then build_mdoc_credential p setup rt wallet_key rec idx status_uri
      else build_sd_jwt_credential p setup rt wallet_key rec idx status_uri

  pub sd_jwt_of :
      (rt : Runtime) (req : CredentialRequest) (wallet_key : Key) (rec : Record) (idx : ℤ)
      (credential : String)
      → (req.credential_configuration_id == pid_mdoc_config_id) ≡ false
      → credential_of rt req wallet_key rec idx ≡ ok credential
      → build_sd_jwt_credential p setup rt wallet_key rec idx
          (concat setup.base_url "/oid4vci/v1/status-list/pid")
        ≡ ok credential
  unfolding credential_of
  sd_jwt_of rt req wallet_key rec idx credential other h = ground (arith)

  -- Everything that stands behind an issued credential.
  pub record IsIssuance (decode : String → Result CredentialRequest) (rt : Runtime)
      (up : Upstream KeySet) (access_token header body : String) (s s' : Service S KeySet)
      (response : CredentialResponse) : Type 0 where
    pub claims : Claims
    pub req : CredentialRequest
    pub wallet_key : Key
    pub rec : Record
    pub idx : ℤ
    pub credential : String
    pub is_authorized :
        IsAuthorized p st setup rt up access_token header "/oid4vci/v1/credential" s claims
    pub decoded : decode body ≡ ok req
    pub requested : IsPidRequest req
    pub proof_given : extract_proof_jwt req ≢ ""
    pub key_proof : IsKeyProof p rt.now (extract_proof_jwt req) setup.base_url wallet_key
    pub nonce : IsFreshNonce (extract_proof_jwt req) claims.c_nonce s.sessions
    pub linked : claims.issuance_record_id ≢ ""
    pub found : st.find_by_id claims.issuance_record_id s.issuances ≡ some rec
    pub has_data : (rec.credential_data ≢ "") × (rec.credential_data ≢ "{}")
    pub allocated : (st.allocate_idx claims.issuance_record_id s.issuances).0 ≡ ok idx
    pub built : credential_of rt req wallet_key rec idx ≡ ok credential
    pub answer : response ≡ success_response credential
    pub stored :
        s'.issuances
        ≡ st.update_status rt.now claims.issuance_record_id "credential_issued"
            (st.allocate_idx claims.issuance_record_id s.issuances).1

  module _ (decode : String → Result CredentialRequest) (rt : Runtime) (up : Upstream KeySet)
      (access_token header body : String) (s : Service S KeySet) where
    -- If a credential is issued, the access token was accepted and came with a valid DPoP proof by the
    -- key that it is bound to; the request names one of the two PID configurations and has a valid
    -- key proof with a registered nonce or that of the token; the token's record exists and has data;
    -- the answer holds what the builder of the configuration's format made for that record, the
    -- wallet's key and the index allocated to the record; and the record is marked as issued.
    pub issue_credential-IsIssuance :
        (response : CredentialResponse) (s' : Service S KeySet)
        → issue_credential p st setup decode rt up access_token header body s ≡ (ok response, s')
        → IsIssuance decode rt up access_token header body s s' response
    unfolding issue_credential credential_of zoom caught gets modify
    issue_credential-IsIssuance =
        (Ensures-bind _ _ _ λ claims authorization. Ensures-mapped _ _ _ _ λ req decoded.
          Ensures-lift _ _ _ λ u configuration. Ensures-require _ _ _ _ λ some_proof.
            Ensures-stay _ _ _
              (λ k proven.
                ap (λ r. r.1)
                  (proven_key p rt.now (extract_proof_jwt req) setup.base_url _ k (
                    (validate_proof_jwt_iff p rt.now (extract_proof_jwt req) setup.base_url _ k).0
                      proven)))
              λ wallet_key proven. Ensures-bind _ _ _ λ v nonce. Ensures-require _ _ _ _ λ linked.
                Ensures-bind _ _ _ λ found looked_up. Ensures-lift _ _ _ λ rec complete.
                  Ensures-bind _ _ _ λ idx allocated. Ensures-mapped _ _ _ _ λ credential built.
                    Ensures-bind _ _ _ λ w updated. Ensures-bind _ _ _ λ x invalidated.
                      Ensures-pure _ _ (
                        let (is_authorized, same, same_sessions) =
                          authorized p st setup rt up access_token header "/oid4vci/v1/credential"
                            "DPoP key mismatch" s claims _ (pair_of _ (ok claims) authorization) in
                        let (is_fresh, same') =
                          fresh_nonce (extract_proof_jwt req) claims.c_nonce _ v _
                            (pair_of _ (ok v) nonce) in
                        let total = same' ∙ same in
                        let (known, not_empty, not_object) =
                          record_with_data-ok found rec complete in
                        record {
                          claims = claims;
                          req = req;
                          wallet_key = wallet_key;
                          rec = rec;
                          idx = idx;
                          credential = credential;
                          is_authorized = is_authorized;
                          decoded = decoded;
                          requested = check_configuration-ok req u configuration;
                          proof_given = nonempty (extract_proof_jwt req) some_proof;
                          key_proof = (validate_proof_jwt_iff p rt.now _ _ _ wallet_key).0 proven;
                          nonce =
                              subst (IsFreshNonce (extract_proof_jwt req) claims.c_nonce)
                                same_sessions is_fresh;
                          linked = nonempty claims.issuance_record_id linked;
                          found =
                              ap (st.find_by_id claims.issuance_record_id) (sym total)
                              ∙ ok_injective _ _ looked_up
                              ∙ known;
                          has_data = (not_empty, not_object);
                          allocated =
                              ap (λ t. (st.allocate_idx claims.issuance_record_id t).0) (sym total)
                              ∙ map_error-ok _ _ idx allocated;
                          built = built;
                          answer = refl;
                          stored =
                              ap
                                (λ t.
                                  st.update_status rt.now claims.issuance_record_id
                                    "credential_issued"
                                    (st.allocate_idx claims.issuance_record_id t).1)
                                total;
                        })).at
