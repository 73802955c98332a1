-- ===== src/Httpapi/Handlers.antt =====
-- internal/httpapi/handlers.go and issuance_handlers.go: the endpoints. `headers` are those that have
-- been set when an endpoint is called.
pub mod Credential
pub mod Statuses
pub mod Advertised
use fikua_lab_issuer.Httpapi.Responses.{written}
use fikua_lab_issuer.Accesstoken.{Upstream}
use fikua_lab_issuer.Credentialconfig.{Config, build_configs}
use fikua_lab_issuer.Httpapi.Params.{
  extract_access_token, has_case_insensitive_prefix, parse_int_param,
}
use fikua_lab_issuer.Httpapi.Responses.{
  Outcome, Response, answered, finish, issued, metadata, no_body, not_found, records, serve_with,
  strings, triggered, write_json, write_oauth_error,
}
use fikua_lab_issuer.Issuance.Interface.{Stores}
use fikua_lab_issuer.Issuance.Listing.{list_issuance_records}
use fikua_lab_issuer.Issuance.Service.{
  generate_nonce, get_status_list_token, issue_credential, revoke_credential, trigger_issuance,
}
use fikua_lab_issuer.Issuance.State.{Draws, Service, Setup, TriggerIssuanceRequest}
use fikua_lab_issuer.Oauth2.Dpop.{Runtime, single_dpop_header}
use fikua_lab_issuer.Oid4vci.Messages.{CredentialRequest, CredentialResponse}
use fikua_lab_issuer.Oid4vci.Metadata.{build_credential_issuer_metadata}
use fikua_lab_issuer.Platform.{Platform, Time}
use fikua_lab_issuer.Prelude.{
  List, Option, String-eq, [], concat, if◌then◌else◌, none, not, some, ◌==◌, ◌∷◌,
}
use fikua_lab_issuer.Prelude.Dict.{put}
use fikua_lab_issuer.Prelude.Int.{pos}
use fikua_lab_issuer.Registryclient.Cache.{Cache, get_definition, stale}
use fikua_lab_issuer.Result.Exec.{
  Exec, Result, bad_request, err, error_text, invalid_credential_request, invalid_request,
  invalid_token, lift, map_error, ok, require, unauthorized, ◌>>=◌, ◌>>◌,
}
use fikua_lab_issuer.Session.{get_credential_offer}
use fikua_lab_issuer.Prelude.{String}
use fikua_lab_issuer.Prelude.Dict.{Dict}
use fikua_lab_issuer.Registryclient.Types.{Definition}

-- The parts of an http.Request that the endpoints read
pub record HttpRequest : Type 0 where
  pub query : String → String
  pub header : String → String
  pub header_values : String → List String
  pub path_value : String → String
  pub body : Result String

pub record Handler : Type 0 where
  pub base_url : String
  pub auth_server_url : String
  pub issuable_schemes : List String
  pub jwk_set_json : Result String
  pub open_api_spec : String

-- `v, ok := ...; if !ok { http.NotFound(w, r); return }`
unfoldable pub found_or : {A : Type 0} → Dict String String → (A → Response) → Option A → Outcome
found_or headers f none = answered (not_found headers)
found_or headers f (some a) = answered (f a)

unfoldable pub health : Dict String String → Cache → Outcome
health headers cache =
    answered
      (write_json headers 200 (strings (("status", if stale cache then "degraded" else "ok") ∷ [])))

-- `for id, cfg := range credentialconfig.Build(def) { configs[id] = cfg }`
unfoldable pub copy_configs : Dict String Config → Dict String Config → Dict String Config
copy_configs [] configs = configs
copy_configs ((id, cfg) ∷ rest) configs = copy_configs rest (put id cfg configs)

unfoldable pub notification : Dict String String → Outcome
notification headers = answered (record { http_status = 204; headers = headers; body = no_body })

unfoldable pub jwks : Dict String String → Result String → Outcome
jwks headers (err e) =
    write_oauth_error headers
      (bad_request invalid_request (concat "Failed to build JWK Set: " (error_text e)))
jwks headers (ok body) = answered (record {
  http_status = 200;
  headers = put "Content-Type" "application/json" headers;
  body = written body;
})

-- `if v == "" { v = fallback }`
unfoldable pub default_text : String → String → String
default_text v fallback = if v == "" then fallback else v

module _ {Key KeySet : Type 0} (p : Platform Key KeySet) where
  -- What one scheme adds, if the catalogue has it: `range` is the order of a range over the map of
  -- configurations.
  unfoldable pub add_scheme :
      (Dict String Config → Dict String Config)
      → Option Definition
      → Dict String Config
      → Dict String Config
  unfolding copy_configs
  add_scheme range none configs = configs
  add_scheme range (some def) configs = copy_configs (range (build_configs p def)) configs

  unfoldable pub issuable_configs :
      (Dict String Config → Dict String Config)
      → Cache
      → List String
      → Dict String Config
      → Dict String Config
  unfolding add_scheme
  issuable_configs range cache [] configs = configs
  issuable_configs range cache (scheme_id ∷ schemes) configs =
      issuable_configs range cache schemes
        (add_scheme range (get_definition scheme_id cache) configs)

  unfoldable pub credential_issuer_metadata :
      (Dict String Config → Dict String Config) → Handler → Cache → Dict String String → Outcome
  unfolding issuable_configs
  credential_issuer_metadata range h cache headers = answered (
      write_json headers 200 (
        metadata (
          build_credential_issuer_metadata h.base_url h.auth_server_url
            (issuable_configs range cache h.issuable_schemes []))))

module _ {S Key KeySet : Type 0} (p : Platform Key KeySet) (st : Stores S) (setup : Setup)
    (headers : Dict String String) where
  unfoldable pub issuance_by_issuer_state :
      HttpRequest → Service S KeySet → Outcome × Service S KeySet
  unfolding found_or
  issuance_by_issuer_state r s = (
    found_or headers (λ rec. write_json headers 200 (strings (("id", rec.id) ∷ [])))
        (st.find_by_issuer_state (r.path_value "issuerState") s.issuances),
    s,
  )

  unfoldable pub credential_offer : HttpRequest → Service S KeySet → Outcome × Service S KeySet
  unfolding found_or
  credential_offer r s = (
    found_or headers
        (λ offer. record {
          http_status = 200;
          headers = put "Content-Type" "application/json" headers;
          body = written offer;
        })
        (get_credential_offer (r.path_value "id") s.sessions),
    s,
  )

  -- `format` is the UTC timestamp of a time.
  unfoldable pub list_records :
      (Time → String) → HttpRequest → Service S KeySet → Outcome × Service S KeySet
  unfolding default_text
  list_records format r s = (
    finish headers (λ result. write_json headers 200 (records result))
        (list_issuance_records p st format (parse_int_param (r.query "page") (pos 1))
          (parse_int_param (r.query "size") (pos 20)) (default_text (r.query "sort") "created_at")
          (default_text (r.query "order") "desc") s.issuances),
    s,
  )

  -- `decode` is the JSON decoder on the body.
  unfoldable pub trigger :
      (decode : Result String → Result TriggerIssuanceRequest)
      → Time
      → Draws
      → HttpRequest
      → Service S KeySet
      → Outcome × Service S KeySet
  trigger decode now draws r =
      serve_with headers (λ result. write_json headers 200 (triggered result))
        (do
          req ← lift (
              map_error
                (λ e. bad_request invalid_request (concat "Invalid request body: " (error_text e)))
                (decode r.body))
          trigger_issuance p st setup now draws req)

  unfoldable pub status_list : Time → HttpRequest → Service S KeySet → Outcome × Service S KeySet
  status_list now r =
      serve_with headers
        (λ token. record {
          http_status = 200;
          headers =
              put "Cache-Control" "max-age=60"
                (put "Content-Type" "application/statuslist+jwt" headers);
          body = written token;
        })
        (get_status_list_token p st setup now (r.path_value "listID"))

  unfoldable pub revoke_issuance : HttpRequest → Service S KeySet → Outcome × Service S KeySet
  revoke_issuance r =
      serve_with headers (λ u. record { http_status = 204; headers = headers; body = no_body })
        (revoke_credential p st setup (r.path_value "id"))

  -- `nonce` is the drawn nonce.
  unfoldable pub nonce_endpoint :
      Runtime
      → Upstream KeySet
      → (drawn : String) → HttpRequest
      → Service S KeySet
      → Outcome × Service S KeySet
  nonce_endpoint rt up drawn r =
      let with_cache : Dict String String = put "Cache-Control" "no-store" headers in
      serve_with with_cache (λ nonce. write_json with_cache 200 (strings (("c_nonce", nonce) ∷ [])))
        (do
          dpop_header ← lift (single_dpop_header (r.header_values "DPoP"))
          generate_nonce p st setup rt up drawn (extract_access_token (r.header "Authorization"))
              dpop_header)

  -- What the credential endpoint does before and with the service.
  unfoldable pub authorized_issuance :
      (decode : String → Result CredentialRequest)
      → Runtime
      → Upstream KeySet
      → HttpRequest
      → Exec (Service S KeySet) CredentialResponse
  authorized_issuance decode rt up r = do
    require (not (extract_access_token (r.header "Authorization") == ""))
        (unauthorized invalid_token "Missing access token")
    require (not (has_case_insensitive_prefix (r.header "Authorization") "bearer ")) (
        unauthorized invalid_token
          "DPoP-bound tokens must use DPoP authorization scheme, not Bearer")
    dpop_header ← lift (single_dpop_header (r.header_values "DPoP"))
    body ← lift (
        map_error
          (λ e.
            bad_request invalid_credential_request
              (concat "Failed to read request body: " (error_text e)))
          r.body)
    issue_credential p st setup decode rt up (extract_access_token (r.header "Authorization"))
        dpop_header body

  unfoldable pub credential_endpoint :
      (decode : String → Result CredentialRequest)
      → Runtime
      → Upstream KeySet
      → HttpRequest
      → Service S KeySet
      → Outcome × Service S KeySet
  unfolding authorized_issuance
  credential_endpoint decode rt up r =
      let with_cache : Dict String String = put "Cache-Control" "no-store" headers in
      serve_with with_cache (λ response. write_json with_cache 200 (issued response))
        (authorized_issuance decode rt up r)
