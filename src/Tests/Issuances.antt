-- ===== src/Tests/Issuances.antt =====
-- The theorems about the service and the listing, at concrete inputs.
use fikua_lab_issuer.Sdjwt.Builder.{new_builder}
use fikua_lab_issuer.Issuance.Store.{
  Store, allocate_idx, find_by_record_id, set_status, find_by_id, update_status,
}
use fikua_lab_issuer.Prelude.{[], arith, refl, ◌∷◌, ◌≡◌, String, String-eq, none, ◌*◌}
use fikua_lab_issuer.Prelude.Dict.{get, delete, has, put}
use fikua_lab_issuer.Prelude.Int.{pos, ℤ-eq}
use fikua_lab_issuer.Accesstoken.{new, is_revoked, key_set, require_access_token_type, verify}
use fikua_lab_issuer.Issuance.Interface.{Stores}
use fikua_lab_issuer.Issuance.Memory.{in_memory}
use fikua_lab_issuer.Issuance.Record.{status_invalid}
use fikua_lab_issuer.Issuance.Service.{
  get_status_list_token, issue_credential, revoke_credential, authorize, require_bound_thumbprint,
  validate_proof_nonce,
}
use fikua_lab_issuer.Issuance.Service.Credential.{IsIssuance, issue_credential-IsIssuance}
use fikua_lab_issuer.Issuance.Service.Revocation.{IsListed, revoke_credential-published}
use fikua_lab_issuer.Issuance.State.{
  Service, failed, list_size, check_configuration, record_with_data,
}
use fikua_lab_issuer.Oid4vci.Messages.{
  CredentialRequest, CredentialResponse, success_response, extract_proof_jwt,
}
use fikua_lab_issuer.Platform.{Time, second, bytes, string_member}
use fikua_lab_issuer.Result.Exec.{
  Result, map_error, ok, pair_of, from_option, gets, lift, modify, pure, require, zoom, ◌>>=◌,
  and_then, caught,
}
use fikua_lab_issuer.Statuslist.Token.{signed_list}
use fikua_lab_issuer.Tests.World.{as_given, in_order, runtime, setup, upstream, world}
use fikua_lab_issuer.Session.{invalidate_nonce, validate_nonce}
use fikua_lab_issuer.Oauth2.Dpop.{
  accept_jti, compute_ath, dpop_thumbprint, htu_matches, only, validate_dpop_proof, within,
}
use fikua_lab_issuer.Oauth2.Fold.{equal_fold_ascii}
use fikua_lab_issuer.Oauth2.Jti.{accept}
use fikua_lab_issuer.Oid4vci.Proof.{contains, only_jwk, proof_nonce, validate_proof_jwt}
use fikua_lab_issuer.Tests.StatusLists.{one_record, one_record-IsWellFormed}
use fikua_lab_issuer.Accesstoken.{Claims}
use fikua_lab_issuer.Issuance.Service.Withdrawn.{IsWithdrawn, revoke-issue_credential}
use fikua_lab_issuer.Issuance.Service.Bound.{IsBound, issue_credential-IsBound}
use fikua_lab_issuer.Tests.Credentials.{world-IsTildeFree}
use fikua_lab_issuer.Issuance.Formats.{build_sd_jwt_credential}
use fikua_lab_issuer.Platform.{members}
use fikua_lab_issuer.Sdjwt.Builder.{build_sd_jwt, disclosed, plain_claim, selective_claim}
use fikua_lab_issuer.Sdjwt.Disclosure.{new_disclosure}
use fikua_lab_issuer.Statuslist.Token.{build_x5c_chain}
use fikua_lab_issuer.Issuance.Service.Granted.{IsIssuable, issue_credential_iff}
use fikua_lab_issuer.Prelude.{◌↔◌}

-- A service that has registered a nonce and issued one credential.
abbrev pub service : Service Store String
service = record {
  sessions = record { nonces = ("nonce-1", tt) ∷ []; credential_offers = [] };
  issuances = one_record;
  jtis = [];
  tokens = new "https://as" "https://issuer";
  status_cache_token = "old list";
  status_cache_exp = 2000 * second;
}

abbrev request : CredentialRequest
request = record {
  credential_configuration_id = "urn:eudi:pid:1";
  credential_identifier = "";
  proof = none;
  proofs = ("jwt", "proof" ∷ []) ∷ [];
}

abbrev pub memory : Stores Store
memory = in_memory in_order as_given

abbrev pub decode : String → Result CredentialRequest
decode body = ok request

abbrev issuing : Result CredentialResponse × Service Store String
issuing = issue_credential world memory setup decode runtime upstream "access" "dpop" "{}" service

issue_run : issuing.0 ≡ ok (success_response "signed~digest~")
unfolding issue_credential ◌>>=◌ authorize zoom verify caught map_error key_set new lift
    require_access_token_type gets from_option require is_revoked has string_member
    require_bound_thumbprint validate_proof_nonce check_configuration record_with_data accept_jti
    compute_ath dpop_thumbprint htu_matches only validate_dpop_proof within equal_fold_ascii accept
    extract_proof_jwt success_response contains only_jwk proof_nonce validate_proof_jwt bytes delete
    get put and_then modify pure invalidate_nonce validate_nonce find_by_id allocate_idx
    update_status build_sd_jwt_credential build_sd_jwt plain_claim members selective_claim
    new_builder new_disclosure build_x5c_chain disclosed
issue_run = refl

issue_credential-IsIssuance_example :
    IsIssuance world memory setup decode runtime upstream "access" "dpop" "{}" service issuing.1
      (success_response "signed~digest~")
issue_credential-IsIssuance_example =
    issue_credential-IsIssuance world memory setup decode runtime upstream "access" "dpop" "{}"
      service (success_response "signed~digest~") issuing.1
      (pair_of _ (ok (success_response "signed~digest~")) issue_run)

issue_credential_iff_example :
    (issuing.0 ≡ ok (success_response "signed~digest~"))
    ↔ IsIssuable world memory setup decode runtime upstream "access" "dpop" "{}" service
        (success_response "signed~digest~")
issue_credential_iff_example =
    issue_credential_iff world memory setup decode runtime upstream "access" "dpop" "{}" service
      (success_response "signed~digest~")

issue_credential-IsBound_example :
    IsBound world in_order as_given setup decode runtime upstream "access" "dpop" "{}" service
      issuing.1
      (success_response "signed~digest~")
unfolding one_record-IsWellFormed
issue_credential-IsBound_example =
    issue_credential-IsBound world in_order as_given setup decode runtime upstream "access" "dpop"
      "{}" service world-IsTildeFree one_record-IsWellFormed (omega arith) request refl refl
      (success_response "signed~digest~") issuing.1
      (pair_of _ (ok (success_response "signed~digest~")) issue_run)

abbrev revoking : Result (Unit {0}) × Service Store String
revoking = revoke_credential world memory setup "record-1" service

revoke_run : revoking.0 ≡ ok tt
unfolding revoke_credential ◌>>=◌ zoom gets lift from_option find_by_id get require
    find_by_record_id set_status modify
revoke_run = refl

-- The claims of the access token.
abbrev token_claims : Claims
token_claims = record {
  issuance_record_id = "record-1";
  c_nonce = "nonce-1";
  jkt = "digest";
  jti = "token-1";
}

token_run : (verify world runtime.now upstream "access" service.tokens).0 ≡ ok token_claims
unfolding verify ◌>>=◌ caught map_error key_set new lift require_access_token_type gets from_option
    require is_revoked has string_member pure
token_run = refl

abbrev withdrawing : Result (Unit {0}) × Service Store String
withdrawing = revoke_credential world memory setup "record-1" issuing.1

withdraw_run : withdrawing.0 ≡ ok tt
unfolding issue_credential ◌>>=◌ authorize zoom verify caught map_error key_set new lift
    require_access_token_type gets from_option require is_revoked has string_member
    require_bound_thumbprint validate_proof_nonce check_configuration record_with_data accept_jti
    compute_ath dpop_thumbprint htu_matches only validate_dpop_proof within equal_fold_ascii accept
    extract_proof_jwt success_response contains only_jwk proof_nonce validate_proof_jwt bytes delete
    get put and_then modify pure invalidate_nonce validate_nonce find_by_id allocate_idx
    update_status build_sd_jwt_credential build_sd_jwt plain_claim members selective_claim
    new_builder new_disclosure build_x5c_chain disclosed revoke_credential find_by_record_id
    set_status
withdraw_run = refl

revoke-issue_credential_example :
    IsWithdrawn world in_order as_given setup decode runtime upstream "access" "dpop" "{}" service
      issuing.1 withdrawing.1
      (success_response "signed~digest~")
unfolding one_record-IsWellFormed
revoke-issue_credential_example =
    revoke-issue_credential world in_order as_given setup decode runtime upstream "access" "dpop"
      "{}" service one_record-IsWellFormed (omega arith) token_claims token_run
      (success_response "signed~digest~") issuing.1
      (pair_of _ (ok (success_response "signed~digest~")) issue_run) tt withdrawing.1
      (pair_of _ (ok tt) withdraw_run)

revoke_credential-published_example :
    (l : IsListed revoking.1.issuances
      (list_size (pos 0) revoking.1.issuances.status_by_idx)
      "record-1"
      status_invalid)
    × ((now : Time)
        → (get_status_list_token world memory setup now "pid" revoking.1).0
          ≡ map_error (failed "Failed to build status list token: ") (
              signed_list world setup.issuer_key now "https://issuer/oid4vci/v1/status-list/pid"
                l.out))
unfolding one_record-IsWellFormed
revoke_credential-published_example =
    revoke_credential-published world in_order as_given setup "record-1" service
      one_record-IsWellFormed (omega arith) tt revoking.1 (pair_of _ (ok tt) revoke_run)
