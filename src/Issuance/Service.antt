-- ===== src/Issuance/Service.antt =====
-- internal/issuance/service.go: the nonce, credential and status list endpoints and the triggering
-- and revocation of issuances, over the stores that the service is built with. One reading of the
-- clock serves a request; drawn tokens are arguments.
pub mod Authorization
pub mod Trigger
pub mod Withdrawn
pub mod Credential
pub mod Revocation
pub mod Nonce
pub mod Bound
pub mod Granted
pub mod Revocable
pub mod Invariant
pub mod Requests
use fikua_lab_issuer.Session
use fikua_lab_issuer.Accesstoken.{Claims, Upstream, Verifier, verify}
use fikua_lab_issuer.Issuance.Interface.{Stores}
use fikua_lab_issuer.Issuance.Record.{Record, status_invalid}
use fikua_lab_issuer.Oauth2.Dpop.{Runtime, compute_ath, dpop_thumbprint, validate_dpop_proof}
use fikua_lab_issuer.Oauth2.Jti.{JtiStore}
use fikua_lab_issuer.Oid4vci.Messages.{
  CredentialRequest, CredentialResponse, authorization_code_offer, extract_proof_jwt, offer_object,
  success_response,
}
use fikua_lab_issuer.Oid4vci.Proof.{proof_nonce, validate_proof_jwt}
use fikua_lab_issuer.Platform.{Members, Platform, Time, no_members, object, second}
use fikua_lab_issuer.Prelude.{
  Option, String, String-eq, [], concat, if◌then◌else◌, ltb, none, not, set, some, ℕ, ◌&&◌, ◌*◌,
  ◌+◌, ◌==◌, ◌||◌, ◌∷◌,
}
use fikua_lab_issuer.Prelude.Dict.{Dict}
use fikua_lab_issuer.Prelude.Int.{pos, wrap64, ℤ, ℤ-eq, ◌+ℤ◌, ◌<ℤ◌}
use fikua_lab_issuer.Result.Exec.{
  Exec, GoError, Result, and_then, bad_request, caught, err, error_text, from_option, gets,
  invalid_credential_request, invalid_nonce, invalid_proof, invalid_request, invalid_token, lift,
  map_error, modify, ok, pure, require, unauthorized, unknown_credential_configuration,
  unknown_credential_identifier, zoom, ◌>>=◌, ◌>>◌, panic,
}
use fikua_lab_issuer.Session.{
  invalidate_nonce, register_nonce, store_credential_offer, validate_nonce,
}
use fikua_lab_issuer.Session.Nonces.{registered}
use fikua_lab_issuer.Statuslist.Token.{SigningKey, build}
use fikua_lab_issuer.Issuance.State.{
  Draws, Service, Setup, TriggerIssuanceRequest, TriggerIssuanceResult, check_configuration, denied,
  failed, in_issuances, in_jtis, in_sessions, in_tokens, list_size, pid_config_id,
  pid_mdoc_config_id, record_with_data, status_list_cache_ttl, status_list_id,
}
use fikua_lab_issuer.Issuance.Formats.{build_mdoc_credential, build_sd_jwt_credential}

module _ {S Key KeySet : Type 0} (p : Platform Key KeySet) (st : Stores S) (setup : Setup) where
  abbrev url : String → String
  url path = concat setup.base_url path

  unfoldable pub trigger_issuance :
      Time → Draws → TriggerIssuanceRequest → Exec (Service S KeySet) TriggerIssuanceResult
  trigger_issuance now draws req = do
    let credential_type : String =
        if req.credential_type == "" then pid_config_id else req.credential_type
    let credential_data : Members = elim req.credential_data [ none ↦ no_members | some m ↦ m ]
    credential_data_json ← lift (
        map_error (failed "Failed to trigger issuance: ") (p.marshal_json (object credential_data)))
    rec ← in_issuances (λ t.
        let (rec, t') =
          st.create now draws.record_id credential_type credential_data_json req.source_type
            req.source_ref t in
        (ok rec, t'))
    in_issuances (modify (st.update_issuer_state now rec.id draws.issuer_state))
    offer_json ← lift (
        map_error (failed "Failed to trigger issuance: ") (
          p.marshal_json (
            offer_object
              (authorization_code_offer setup.base_url credential_type draws.issuer_state))))
    offer_id ← in_sessions (store_credential_offer draws.offer_id offer_json)
    in_issuances (modify (st.update_status now rec.id "offer_created"))
    pure (record {
      issuance_id = rec.id;
      credential_offer_uri = concat (url "/oid4vci/v1/credential-offer/") offer_id;
    })

  unfoldable pub require_bound_thumbprint : String → Key → String → Result (Unit {0})
  require_bound_thumbprint bound_jkt presented_key mismatch_message =
      and_then
        (map_error (λ _. unauthorized invalid_token "DPoP thumbprint verification failed")
          (dpop_thumbprint p presented_key))
        λ actual.
          if bound_jkt == actual then ok tt else err (unauthorized invalid_token mismatch_message)

  -- The token's claims, with a DPoP proof for the request by the key that the token is bound to:
  -- the steps that the two protected endpoints begin with.
  unfoldable pub authorize :
      Runtime
      → Upstream KeySet
      → (access_token dpop_header path mismatch : String) → Exec (Service S KeySet) Claims
  authorize rt up access_token dpop_header path mismatch = do
    claims ← in_tokens (verify p rt.now up access_token)
    dpop_key ←
        in_jtis
          (validate_dpop_proof p rt dpop_header "POST" (url path) (compute_ath p access_token))
    lift (require_bound_thumbprint claims.jkt dpop_key mismatch)
    pure claims

  -- `nonce` is the drawn nonce.
  unfoldable pub generate_nonce :
      Runtime
      → Upstream KeySet
      → (nonce access_token dpop_header : String) → Exec (Service S KeySet) String
  generate_nonce rt up nonce access_token dpop_header = do
    in_sessions (λ t. (tt, register_nonce nonce t))
    if access_token == "" then pure nonce else (do
      _ ←
          authorize rt up access_token dpop_header "/oid4vci/v1/nonce"
            "DPoP key mismatch at nonce endpoint"
      pure nonce)

  unfoldable pub no_match : GoError
  no_match = bad_request invalid_nonce "Proof nonce does not match c_nonce"

  unfoldable pub validate_proof_nonce :
      (proof_jwt token_c_nonce : String) → Exec (Service S KeySet) (Unit {0})
  unfolding no_match
  validate_proof_nonce proof_jwt token_c_nonce = do
    nonce ← lift (map_error (λ _. no_match) (proof_nonce p proof_jwt))
    require (not (nonce == "")) no_match
    registered ← in_sessions (validate_nonce nonce)
    require (registered || (not (token_c_nonce == "") && nonce == token_c_nonce)) no_match

  -- `decode` is json.Unmarshal of the body into a CredentialRequest.
  unfoldable pub issue_credential :
      (decode : String → Result CredentialRequest)
      → Runtime
      → Upstream KeySet
      → (access_token dpop_header body : String) → Exec (Service S KeySet) CredentialResponse
  issue_credential decode rt up access_token dpop_header body = do
    claims ← authorize rt up access_token dpop_header "/oid4vci/v1/credential" "DPoP key mismatch"
    req ← lift (
        map_error
          (λ e.
            bad_request invalid_credential_request (concat "Invalid request body: " (error_text e)))
          (decode body))
    lift (check_configuration req)
    require (not (extract_proof_jwt req == "")) (bad_request invalid_proof "proof_type must be jwt")
    wallet_key ← validate_proof_jwt p rt.now (extract_proof_jwt req) setup.base_url
    validate_proof_nonce (extract_proof_jwt req) claims.c_nonce
    require (not (claims.issuance_record_id == "")) (
        denied
          "No issuance record linked to this access token. Use POST /oid4vci/v1/issuance to trigger credential issuance.")
    found ← in_issuances (gets (st.find_by_id claims.issuance_record_id))
    rec ← lift (record_with_data found)
    status_idx ← in_issuances (
        caught (failed "Failed to allocate status list index: ")
          (st.allocate_idx claims.issuance_record_id))
    let status_uri : String = url (concat "/oid4vci/v1/status-list/" status_list_id)
    credential ← lift (
        map_error (failed "Invalid credential request: ") (
          if req.credential_configuration_id == pid_mdoc_config_id
          then build_mdoc_credential p setup rt wallet_key rec status_idx status_uri
          else build_sd_jwt_credential p setup rt wallet_key rec status_idx status_uri))
    in_issuances (modify (st.update_status rt.now claims.issuance_record_id "credential_issued"))
    in_sessions (λ t. (tt, invalidate_nonce claims.c_nonce t))
    pure (success_response credential)

  build_list : Time → Exec (Service S KeySet) String
  build_list now = do
    entries ←
        in_issuances
          (λ t. (map_error (failed "Failed to load status list entries: ") (st.all_entries t), t))
    token ← lift (
        map_error (failed "Failed to build status list token: ") (
          build p setup.issuer_key now entries (list_size (pos 0) entries)
            (url (concat "/oid4vci/v1/status-list/" status_list_id))))
    modify (λ s. record s {
      status_cache_token = token;
      status_cache_exp = now + status_list_cache_ttl;
    })
    pure token

  -- The token that is cached and has not expired.
  cached_list : Time → Service S KeySet → Option String
  cached_list now s =
      if not (s.status_cache_token == "") && ltb now s.status_cache_exp
      then some s.status_cache_token
      else none

  list_or_build : Time → Option String → Exec (Service S KeySet) String
  list_or_build now (some token) = pure token
  list_or_build now none = build_list now

  unfoldable pub get_status_list_token : Time → String → Exec (Service S KeySet) String
  unfolding list_or_build build_list cached_list
  get_status_list_token now list_id = do
    require (list_id == status_list_id) (denied (concat "Unknown status list: " list_id))
    cached ← gets (cached_list now)
    list_or_build now cached

  unfoldable pub revoke_credential : String → Exec (Service S KeySet) (Unit {0})
  revoke_credential id = do
    found ← in_issuances (gets (st.find_by_id id))
    rec ← lift (from_option found (denied (concat "Unknown issuance record: " id)))
    require (rec.status == "credential_issued") (
        denied (
          concat "Only an issued credential can be revoked (current status: "
            (concat rec.status ")")))
    entry ← in_issuances (gets (st.find_by_record_id id))
    _ ← lift (
        from_option entry (
          denied
            "This credential has no status list entry (issued before revocation support existed) and cannot be revoked"))
    set ← in_issuances (λ t. let (done, t') = st.set_status id status_invalid t in (ok done, t'))
    _ ← lift (from_option set (denied "Failed to revoke credential"))
    modify (λ s. record s { status_cache_token = "" })
