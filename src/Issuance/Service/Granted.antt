-- ===== src/Issuance/Service/Granted.antt =====
-- IssueCredential of internal/issuance/service.go: the requests that get a credential.
use mathlib.Core.Path.{subst}
use fikua_lab_issuer.Session.{Store, validate_nonce}
use fikua_lab_issuer.Issuance.Service.Credential.{
  IsFreshNonce, IsPidRequest, credential_of, fresh_nonce, issue_credential-IsIssuance,
}
use fikua_lab_issuer.Issuance.Service.Authorization.{IsAuthorized, authorized}
use fikua_lab_issuer.Accesstoken.{Claims, Upstream}
use fikua_lab_issuer.Issuance.Interface.{Stores}
use fikua_lab_issuer.Issuance.Record.{Record}
use fikua_lab_issuer.Issuance.Service.{
  authorize, issue_credential, require_bound_thumbprint, validate_proof_nonce,
}
use fikua_lab_issuer.Issuance.State.{Service, Setup, check_configuration, failed, record_with_data}
use fikua_lab_issuer.Oauth2.Dpop.{Runtime, dpop_thumbprint}
use fikua_lab_issuer.Oauth2.Dpop.Replay.{validate_dpop_proof_iff}
use fikua_lab_issuer.Oid4vci.Messages.{
  CredentialRequest, CredentialResponse, extract_proof_jwt, success_response,
}
use fikua_lab_issuer.Oid4vci.Proof.Validity.{IsKeyProof, proven_key}
use fikua_lab_issuer.Platform.{Platform}
use fikua_lab_issuer.Prelude.{
  String, String-eq, ap, arith, beq_self, eq_iff, inl, inr, not, refl, some, sym, true, ◌&&◌, ◌==◌,
  ◌||◌, ◌↔◌, ◌∙◌, ◌≡◌, ◌≢◌, ◌⊎◌,
}
use fikua_lab_issuer.Prelude.Dict.{has}
use fikua_lab_issuer.Prelude.Int.{ℤ, ℤ-eq}
use fikua_lab_issuer.Result.Ensures.{run-bind, run-lift, run-mapped, run-require}
use fikua_lab_issuer.Result.Exec.{
  Result, and_then, caught, gets, map_error, modify, ok, pair_of, pure, require, zoom,
}

check_configuration_passes :
    (req : CredentialRequest) → IsPidRequest req → check_configuration req ≡ ok tt
unfolding check_configuration
check_configuration_passes req r = elim r.configuration [
  | inl pid ↦ rw (r.no_identifier, pid) refl
  | inr mdoc ↦ rw (r.no_identifier, mdoc) refl
]

record_with_data_passes :
    (rec : Record)
    → rec.credential_data ≢ ""
    → rec.credential_data ≢ "{}"
    → record_with_data (some rec) ≡ ok rec
unfolding record_with_data
record_with_data_passes rec h k =
    ground (arith, eq_iff rec.credential_data "", eq_iff rec.credential_data "{}")

given : (text : String) → text ≢ "" → not (text == "") ≡ true
given text h = ground (arith, eq_iff text "")

registered_or_own :
    (nonce own : String) (t : Store)
    → nonce ≢ ""
    → (has nonce t.nonces ≡ true) ⊎ (nonce ≡ own)
    → ((validate_nonce nonce t).0 || (not (own == "") && nonce == own)) ≡ true
unfolding validate_nonce
registered_or_own nonce own t h k = ground (arith, eq_iff nonce own, eq_iff own "")

module _ {S Key KeySet : Type 0} (p : Platform Key KeySet) (st : Stores S) (setup : Setup) where
  thumbprint_passes :
      (jkt : String) (key : Key) (message : String)
      → dpop_thumbprint p key ≡ ok jkt
      → require_bound_thumbprint p st setup jkt key message ≡ ok tt
  unfolding require_bound_thumbprint and_then map_error
  thumbprint_passes jkt key message h = rw h (rw (beq_self jkt) refl)

  authorize_passes :
      (rt : Runtime) (up : Upstream KeySet) (access_token header path mismatch : String)
      (s : Service S KeySet) (claims : Claims)
      → IsAuthorized p st setup rt up access_token header path s claims
      → (authorize p st setup rt up access_token header path mismatch s).0 ≡ ok claims
  unfolding authorize zoom pure
  authorize_passes rt up access_token header path mismatch s claims a =
      ap (λ r. r.0)
        (run-bind _ claims _ s _ (pair_of _ (ok claims) a.verified)
          ∙ run-bind _ a.key _ _ _ (
              pair_of _ (ok a.key)
                ((validate_dpop_proof_iff p rt header "POST" _ _ s.jtis a.key).1 a.proof))
          ∙ run-lift _ tt _ _ (thumbprint_passes claims.jkt a.key mismatch a.bound))

  nonce_passes :
      (proof_jwt own : String) (s : Service S KeySet)
      → IsFreshNonce p st setup proof_jwt own s.sessions
      → (validate_proof_nonce p st setup proof_jwt own s).0 ≡ ok tt
  unfolding validate_proof_nonce require IsFreshNonce
  nonce_passes proof_jwt own s (nonce, read, present, known) =
      ap (λ r. r.0)
        (run-mapped _ _ nonce _ s read
          ∙ run-require _ _ _ _ (given nonce present)
          ∙ run-bind _ _ _ _ _ refl)
      ∙ rw (registered_or_own nonce own s.sessions present known) refl

  module _ (decode : String → Result CredentialRequest) (rt : Runtime) (up : Upstream KeySet)
      (access_token header body : String) (s : Service S KeySet) where
    -- What a request needs to get a credential, and the answer that it gets.
    pub record IsIssuable (response : CredentialResponse) : Type 0 where
      pub claims : Claims
      pub req : CredentialRequest
      pub wallet_key : Key
      pub rec : Record
      pub idx : ℤ
      pub credential : String
      pub is_authorized :
          IsAuthorized p st setup rt up access_token header "/oid4vci/v1/credential" s claims
      pub decoded : decode body ≡ ok req
      pub requested : IsPidRequest req
      pub proof_given : extract_proof_jwt req ≢ ""
      pub key_proof : IsKeyProof p rt.now (extract_proof_jwt req) setup.base_url wallet_key
      pub nonce : IsFreshNonce p st setup (extract_proof_jwt req) claims.c_nonce s.sessions
      pub linked : claims.issuance_record_id ≢ ""
      pub found : st.find_by_id claims.issuance_record_id s.issuances ≡ some rec
      pub has_data : (rec.credential_data ≢ "") × (rec.credential_data ≢ "{}")
      pub allocated : (st.allocate_idx claims.issuance_record_id s.issuances).0 ≡ ok idx
      pub built : credential_of p st setup rt req wallet_key rec idx ≡ ok credential
      pub answer : response ≡ success_response credential

    issuable_run :
        (response : CredentialResponse)
        → IsIssuable response
        → (issue_credential p st setup decode rt up access_token header body s).0 ≡ ok response
    unfolding issue_credential credential_of zoom gets modify caught map_error pure
    issuable_run response i =
        let checked =
          authorize p st setup rt up access_token header "/oid4vci/v1/credential"
            "DPoP key mismatch" in
        let s1 = (checked s).1 in
        let first : checked s ≡ (ok i.claims, s1) = pair_of _ (ok i.claims) (
          authorize_passes rt up access_token header _ "DPoP key mismatch" s i.claims
            i.is_authorized) in
        let (_, same, same_sessions) =
          authorized p st setup rt up access_token header "/oid4vci/v1/credential"
            "DPoP key mismatch" s i.claims s1 first in
        let fresh : IsFreshNonce p st setup (extract_proof_jwt i.req) i.claims.c_nonce s1.sessions =
          subst (IsFreshNonce p st setup (extract_proof_jwt i.req) i.claims.c_nonce)
            (sym same_sessions) i.nonce in
        let s2 =
          (validate_proof_nonce p st setup (extract_proof_jwt i.req) i.claims.c_nonce s1).1 in
        let second : validate_proof_nonce p st setup (extract_proof_jwt i.req) i.claims.c_nonce s1
            ≡ (ok tt, s2) =
          pair_of _ (ok tt) (nonce_passes (extract_proof_jwt i.req) i.claims.c_nonce s1 fresh) in
        let (_, same') =
          fresh_nonce p st setup (extract_proof_jwt i.req) i.claims.c_nonce s1 tt s2 second in
        let total : s2.issuances ≡ s.issuances = same' ∙ same in
        let id = i.claims.issuance_record_id in
        ap (λ r. r.0)
          (run-bind _ i.claims _ s s1 first
            ∙ run-mapped _ _ i.req _ _ i.decoded
            ∙ run-lift _ tt _ _ (check_configuration_passes i.req i.requested)
            ∙ run-require _ _ _ _ (given (extract_proof_jwt i.req) i.proof_given)
            ∙ run-bind _ i.wallet_key _ s1 s1 (
                proven_key p rt.now (extract_proof_jwt i.req) setup.base_url s1 i.wallet_key
                  i.key_proof)
            ∙ run-bind _ tt _ s1 s2 second
            ∙ run-require _ _ _ _ (given id i.linked)
            ∙ run-bind _ (st.find_by_id id s2.issuances) _ s2 s2 refl
            ∙ run-lift _ i.rec _ _ (
                ap (λ t. record_with_data (st.find_by_id id t)) total
                ∙ ap record_with_data i.found
                ∙ record_with_data_passes i.rec i.has_data.0 i.has_data.1)
            ∙ run-bind _ i.idx _ s2 _ (
                pair_of _ (ok i.idx) (
                  ap
                    (λ t.
                      map_error (failed "Failed to allocate status list index: ")
                        (st.allocate_idx id t).0)
                    total
                  ∙ ap (map_error (failed "Failed to allocate status list index: ")) i.allocated))
            ∙ run-mapped _ _ i.credential _ _ i.built
            ∙ run-bind _ tt _ _ _ refl
            ∙ run-bind _ tt _ _ _ refl)
        ∙ ap ok (sym i.answer)

    -- A request is answered with a credential exactly if its access token is verified and comes with a
    -- valid DPoP proof by the key that it is bound to; it names one of the two PID configurations; its
    -- key proof is valid, with a registered nonce or that of the token; the token's record exists and
    -- has data; an index can be allocated to the record; and the builder of the configuration's
    -- format makes a credential for the record, the wallet's key and the index, which the answer holds.
    pub issue_credential_iff :
        (response : CredentialResponse)
        → ((issue_credential p st setup decode rt up access_token header body s).0 ≡ ok response)
          ↔ IsIssuable response
    issue_credential_iff response = (
      λ h.
          let i =
            issue_credential-IsIssuance p st setup decode rt up access_token header body s response
              _ (pair_of _ (ok response) h) in
          record {
            claims = i.claims;
            req = i.req;
            wallet_key = i.wallet_key;
            rec = i.rec;
            idx = i.idx;
            credential = i.credential;
            is_authorized = i.is_authorized;
            decoded = i.decoded;
            requested = i.requested;
            proof_given = i.proof_given;
            key_proof = i.key_proof;
            nonce = i.nonce;
            linked = i.linked;
            found = i.found;
            has_data = i.has_data;
            allocated = i.allocated;
            built = i.built;
            answer = i.answer;
          },
      issuable_run response,
    )
