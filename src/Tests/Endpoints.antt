-- ===== src/Tests/Endpoints.antt =====
-- The theorems about the HTTP endpoints, at concrete inputs.
use fikua_lab_issuer.Accesstoken.{new}
use fikua_lab_issuer.Issuance.Store.{allocate_idx, find_by_id, update_status}
use fikua_lab_issuer.Sdjwt.Builder.{new_builder}
use fikua_lab_issuer.Tests.Issuances.{decode, memory, service}
use fikua_lab_issuer.Issuance.Store.{Store}
use fikua_lab_issuer.Prelude.{String-eq}
use fikua_lab_issuer.Httpapi.Handlers.{HttpRequest, credential_endpoint}
use fikua_lab_issuer.Httpapi.Handlers.Credential.{
  IsIssuedAnswer, credential_endpoint-IsIssuedAnswer,
}
use fikua_lab_issuer.Httpapi.Handlers.Statuses.{IsPrivateAnswer, credential_endpoint_statuses}
use fikua_lab_issuer.Httpapi.Params.{extract_access_token, parse_int_param}
use fikua_lab_issuer.Httpapi.Params.Laws.{
  IsCount, extract_access_token-concat, parse_int_param-IsCount,
}
use fikua_lab_issuer.Httpapi.Responses.{Outcome, Response, answered, issued, write_json}
use fikua_lab_issuer.Issuance.State.{Service}
use fikua_lab_issuer.Oauth2.Fold.{fold_byte}
use fikua_lab_issuer.Oid4vci.Messages.{success_response}
use fikua_lab_issuer.Prelude.{
  String, [], ap, arith, concat, if◌then◌else◌, inr, refl, ◌==◌, ◌∷◌, ◌≡◌,
}
use fikua_lab_issuer.Prelude.Dict.{put}
use fikua_lab_issuer.Prelude.Int.{pos}
use fikua_lab_issuer.Result.Exec.{ok}
use fikua_lab_issuer.Tests.World.{runtime, setup, upstream, world}
use fikua_lab_issuer.Accesstoken.{is_revoked, key_set, require_access_token_type, verify}
use fikua_lab_issuer.Httpapi.Handlers.{authorized_issuance}
use fikua_lab_issuer.Httpapi.Params.{has_case_insensitive_prefix, without_prefix}
use fikua_lab_issuer.Httpapi.Responses.{finish, serve_with}
use fikua_lab_issuer.Issuance.Formats.{build_sd_jwt_credential}
use fikua_lab_issuer.Issuance.Service.{
  authorize, issue_credential, require_bound_thumbprint, validate_proof_nonce,
}
use fikua_lab_issuer.Issuance.State.{check_configuration, record_with_data}
use fikua_lab_issuer.Oauth2.Dpop.{
  accept_jti, compute_ath, dpop_thumbprint, htu_matches, only, single_dpop_header,
  validate_dpop_proof, within,
}
use fikua_lab_issuer.Oauth2.Fold.{equal_fold_ascii}
use fikua_lab_issuer.Oauth2.Jti.{accept}
use fikua_lab_issuer.Oid4vci.Messages.{extract_proof_jwt}
use fikua_lab_issuer.Oid4vci.Proof.{contains, only_jwk, proof_nonce, validate_proof_jwt}
use fikua_lab_issuer.Platform.{bytes, members, string_member}
use fikua_lab_issuer.Prelude.Dict.{delete, get, has}
use fikua_lab_issuer.Result.Exec.{
  and_then, caught, from_option, gets, lift, map_error, modify, pure, require, zoom, ◌>>=◌,
}
use fikua_lab_issuer.Sdjwt.Builder.{build_sd_jwt, disclosed, plain_claim, selective_claim}
use fikua_lab_issuer.Sdjwt.Disclosure.{new_disclosure}
use fikua_lab_issuer.Session.{invalidate_nonce, validate_nonce}
use fikua_lab_issuer.Statuslist.Token.{build_x5c_chain}

parse_int_param-IsCount_example : IsCount (parse_int_param "007" (pos 20))
unfolding IsCount
parse_int_param-IsCount_example =
    parse_int_param-IsCount "007" (pos 20) (20, refl, omega arith, omega arith)

extract_access_token-concat_example : extract_access_token (concat "dPoP " "token") ≡ "token"
unfolding fold_byte
extract_access_token-concat_example =
    extract_access_token-concat "dPoP " "token" (inr (refl, (refl, (refl, (refl, (refl, tt))))))

abbrev request : HttpRequest
request = record {
  query = λ name. "";
  header = λ name. if name == "Authorization" then "DPoP access" else "";
  header_values = λ name. "dpop" ∷ [];
  path_value = λ name. "";
  body = ok "{}";
}

abbrev asking : Outcome × Service Store String
asking = credential_endpoint world memory setup [] decode runtime upstream request service

abbrev answer : Response
answer =
    write_json (put "Cache-Control" "no-store" []) 200 (issued (success_response "signed~digest~"))

endpoint_run : asking.0 ≡ answered answer
unfolding issue_credential ◌>>=◌ authorize zoom verify caught map_error key_set new lift
    require_access_token_type gets from_option require is_revoked has string_member
    require_bound_thumbprint validate_proof_nonce check_configuration record_with_data accept_jti
    compute_ath dpop_thumbprint htu_matches only validate_dpop_proof within equal_fold_ascii accept
    extract_proof_jwt success_response contains only_jwk proof_nonce validate_proof_jwt bytes delete
    get put and_then modify pure invalidate_nonce validate_nonce find_by_id allocate_idx
    update_status build_sd_jwt_credential build_sd_jwt plain_claim members selective_claim
    new_builder new_disclosure build_x5c_chain disclosed credential_endpoint serve_with finish
    authorized_issuance extract_access_token has_case_insensitive_prefix without_prefix fold_byte
    single_dpop_header
endpoint_run = refl

credential_endpoint_statuses_example : IsPrivateAnswer answer
credential_endpoint_statuses_example =
    credential_endpoint_statuses world memory setup [] decode runtime upstream request service
      asking.1 answer (ap (λ outcome. (outcome, asking.1)) endpoint_run)

credential_endpoint-IsIssuedAnswer_example :
    IsIssuedAnswer world memory setup [] decode runtime upstream request service asking.1
      (success_response "signed~digest~")
unfolding write_json
credential_endpoint-IsIssuedAnswer_example =
    credential_endpoint-IsIssuedAnswer world memory setup [] decode runtime upstream request service
      asking.1 answer (success_response "signed~digest~")
      (ap (λ outcome. (outcome, asking.1)) endpoint_run) refl
