-- ===== src/Httpapi/Responses.antt =====
-- internal/httpapi: what an endpoint writes. Encoding a body as JSON is left out: a body is the Go value
-- that is encoded.
use fikua_lab_issuer.Issuance.Listing.{ListIssuanceRecordsResult}
use fikua_lab_issuer.Issuance.State.{TriggerIssuanceResult}
use fikua_lab_issuer.Oid4vci.Messages.{CredentialResponse}
use fikua_lab_issuer.Oid4vci.Metadata.{CredentialIssuerMetadata}
use fikua_lab_issuer.Prelude.{String, String-eq, [], if◌then◌else◌, ℕ, ◌==◌, ◌∷◌}
use fikua_lab_issuer.Prelude.Dict.{Dict, put}
use fikua_lab_issuer.Result.Exec.{
  Exec, GoError, Result, err, exception, invalid_request, ok, panic, plain,
}

pub data Body : Type 0 where
  no_body : Body
  written : String → Body
  strings : Dict String String → Body
  failure : (code description : String) → Body
  metadata : CredentialIssuerMetadata → Body
  records : ListIssuanceRecordsResult → Body
  triggered : TriggerIssuanceResult → Body
  issued : CredentialResponse → Body

pub record Response : Type 0 where
  pub http_status : ℕ
  pub headers : Dict String String
  pub body : Body

-- A response, or a panic, at which the server drops the connection.
pub data Outcome : Type 0 where
  answered : Response → Outcome
  aborted : String → Outcome

-- `headers` are those that have been set before.
unfoldable pub write_json : Dict String String → ℕ → Body → Response
write_json headers status body = record {
  http_status = status;
  headers = put "Content-Type" "application/json" headers;
  body = body;
}

unfoldable pub write_oauth_error : Dict String String → GoError → Outcome
write_oauth_error headers (exception x) =
    answered (write_json headers x.http_status (failure x.code x.description))
write_oauth_error headers (plain message) =
    answered (write_json headers 500 (failure invalid_request message))
write_oauth_error headers (panic message) = aborted message

-- `if err != nil { writeOAuthError(w, err); return }`, and else the response
unfoldable pub finish : {A : Type 0} → Dict String String → (A → Response) → Result A → Outcome
unfolding write_oauth_error
finish headers f (ok a) = answered (f a)
finish headers f (err e) = write_oauth_error headers e

-- An endpoint that runs a method of the service.
unfoldable pub serve_with :
    {S A : Type 0} → Dict String String → (A → Response) → Exec S A → S → Outcome × S
unfolding finish
serve_with headers f m s = (finish headers f (m s).0, (m s).1)

-- http.NotFound
unfoldable pub not_found : Dict String String → Response
not_found headers = record {
  http_status = 404;
  headers =
      put "X-Content-Type-Options" "nosniff"
        (put "Content-Type" "text/plain; charset=utf-8" headers);
  body = written "404 page not found\n";
}

-- cors.go: the headers of every answer, and the answer to a preflight request
unfoldable pub cors_headers : Dict String String
cors_headers =
    ("Access-Control-Allow-Origin", "*")
    ∷ ("Access-Control-Allow-Methods", "GET, POST, OPTIONS")
    ∷ (
      "Access-Control-Allow-Headers",
      "Content-Type, Authorization, DPoP, OAuth-Client-Attestation, OAuth-Client-Attestation-PoP",
    )
    ∷ []

-- `next` serves a request with the headers that have been set already.
unfoldable pub with_cors :
    {S : Type 0} → (method : String) → (Dict String String → S → Outcome × S) → S → Outcome × S
unfolding cors_headers
with_cors method next s =
    if method == "OPTIONS"
    then (answered (record { http_status = 204; headers = cors_headers; body = no_body }), s)
    else next cors_headers s
