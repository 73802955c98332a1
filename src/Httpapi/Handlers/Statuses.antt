-- ===== src/Httpapi/Handlers/Statuses.antt =====
-- The credential endpoint of internal/httpapi/issuance_handlers.go: the statuses that it answers with.
use mathlib.Core.Path.{subst}
use fikua_lab_issuer.Session
use fikua_lab_issuer.Accesstoken.{Upstream, verify}
use fikua_lab_issuer.Accesstoken.Soundness.{verify_errors}
use fikua_lab_issuer.Issuance.Interface.{Stores}
use fikua_lab_issuer.Issuance.Record.{Record}
use fikua_lab_issuer.Issuance.State.{Setup, check_configuration, failed, record_with_data}
use fikua_lab_issuer.Oauth2.Dpop.{Runtime, single_dpop_header, validate_dpop_proof}
use fikua_lab_issuer.Oauth2.Dpop.Errors.{validate_dpop_proof_errors}
use fikua_lab_issuer.Oid4vci.Messages.{CredentialRequest}
use fikua_lab_issuer.Platform.{Platform, Time}
use fikua_lab_issuer.Prelude.{
  List, Option, String, String-eq, [], inl, inr, none, refl, some, ◌∷◌, ◌≡◌, ◌⊎◌,
}
use fikua_lab_issuer.Result.Exec.{
  GoError, bad_request, exception, invalid_request, invalid_token, panic, plain, unauthorized,
}
use fikua_lab_issuer.Result.Raises.{
  IsException, OnError, OnError-err, OnError-if, OnError-ok, Raises,
}
use fikua_lab_issuer.Issuance.Service.{
  authorize, issue_credential, no_match, require_bound_thumbprint, validate_proof_nonce,
}
use fikua_lab_issuer.Issuance.State.{Service, in_sessions, no_data}
use fikua_lab_issuer.Oid4vci.Proof.{only_jwk, validate_proof_jwt}
use fikua_lab_issuer.Platform.{Headers}
use fikua_lab_issuer.Result.Exec.{Result}
use fikua_lab_issuer.Result.Raises.{raises_rules}
use fikua_lab_issuer.Httpapi.Handlers.{HttpRequest, authorized_issuance}
use fikua_lab_issuer.Prelude.Dict.{Dict}
use fikua_lab_issuer.Httpapi.Handlers.{credential_endpoint}
use fikua_lab_issuer.Httpapi.Responses.{
  Body, Response, answered, failure, finish, issued, serve_with, write_json, write_oauth_error,
}
use fikua_lab_issuer.Oid4vci.Messages.{CredentialResponse}
use fikua_lab_issuer.Prelude.{ap, arith, ℕ}
use fikua_lab_issuer.Prelude.Dict.{get, get-put, put}
use fikua_lab_issuer.Result.Exec.{err, ok}

-- A refusal with one of the statuses 400, 401 and 503, or a panic.
abbrev pub IsRefusal : GoError → Type 0
IsRefusal (exception x) = (x.http_status ≡ 400) ⊎ (x.http_status ≡ 401) ⊎ (x.http_status ≡ 503)
IsRefusal (plain message) = ⊥
IsRefusal (panic message) = Unit {0}

bad_request-IsRefusal : (c d : String) → IsRefusal (bad_request c d)
unfolding bad_request
bad_request-IsRefusal c d = inl refl

unauthorized-IsRefusal : (c d : String) → IsRefusal (unauthorized c d)
unfolding unauthorized
unauthorized-IsRefusal c d = inr (inl refl)

failed-IsRefusal : (prefix : String) (e : GoError) → IsRefusal (failed prefix e)
failed-IsRefusal prefix (exception x) = bad_request-IsRefusal _ _
failed-IsRefusal prefix (plain message) = bad_request-IsRefusal _ _
failed-IsRefusal prefix (panic message) = tt

invalid_token-IsRefusal :
    (e : GoError) → IsException 401 invalid_token e ⊎ IsException 503 invalid_token e → IsRefusal e
invalid_token-IsRefusal (exception x) (inl h) = inr (inl h.0)
invalid_token-IsRefusal (exception x) (inr h) = inr (inr h.0)
invalid_token-IsRefusal (plain message) h = elim h [ inl k ↦ absurd k | inr k ↦ absurd k ]
invalid_token-IsRefusal (panic message) h = tt

invalid_request-IsRefusal : (e : GoError) → IsException 400 invalid_request e → IsRefusal e
invalid_request-IsRefusal (exception x) h = inl h.0
invalid_request-IsRefusal (plain message) h = absurd h
invalid_request-IsRefusal (panic message) h = tt

ruleset refusals = (
  OnError-if, OnError-err, OnError-ok, bad_request-IsRefusal, unauthorized-IsRefusal,
  failed-IsRefusal,
)

single_dpop_header-IsRefusal :
    (values : List String) → OnError IsRefusal (single_dpop_header values)
unfolding single_dpop_header
single_dpop_header-IsRefusal [] = OnError-ok _
single_dpop_header-IsRefusal (v ∷ []) = OnError-ok _
single_dpop_header-IsRefusal (v ∷ w ∷ vs) = OnError-err _ (bad_request-IsRefusal _ _)

check_configuration-IsRefusal :
    (req : CredentialRequest) → OnError IsRefusal (check_configuration req)
unfolding check_configuration
check_configuration-IsRefusal req = search refusals depth 20

record_with_data-IsRefusal : (found : Option Record) → OnError IsRefusal (record_with_data found)
unfolding record_with_data no_data
record_with_data-IsRefusal none = search refusals depth 20
record_with_data-IsRefusal (some rec) = search refusals depth 20

answered_injective : (a b : Response) → answered a ≡ answered b → a ≡ b
answered_injective a b h = ground arith

pub record IsPrivateAnswer (resp : Response) : Type 0 where
  pub answer :
      (resp.http_status ≡ 200)
      ⊎ (resp.http_status ≡ 400)
      ⊎ (resp.http_status ≡ 401)
      ⊎ (resp.http_status ≡ 503)
  pub no_store : get "Cache-Control" resp.headers ≡ some "no-store"

json-IsPrivateAnswer :
    (headers : Dict String String) (code : ℕ) (body : Body)
    → (code ≡ 200) ⊎ (code ≡ 400) ⊎ (code ≡ 401) ⊎ (code ≡ 503)
    → IsPrivateAnswer (write_json (put "Cache-Control" "no-store" headers) code body)
unfolding write_json
json-IsPrivateAnswer headers code body h = record { answer = h; no_store = simp (get-put) }

refused-IsPrivateAnswer :
    (headers : Dict String String) (e : GoError) (resp : Response)
    → IsRefusal e
    → write_oauth_error (put "Cache-Control" "no-store" headers) e ≡ answered resp
    → IsPrivateAnswer resp
unfolding write_oauth_error
refused-IsPrivateAnswer headers (exception x) resp h k =
    subst IsPrivateAnswer (answered_injective _ _ k)
      (json-IsPrivateAnswer headers x.http_status (failure x.code x.description) (inr h))
refused-IsPrivateAnswer headers (plain message) resp h k = absurd h
refused-IsPrivateAnswer headers (panic message) resp h k = cc

finish-IsPrivateAnswer :
    (headers : Dict String String) (result : Result CredentialResponse) (resp : Response)
    → ((e : GoError) → result ≡ err e → IsRefusal e)
    → finish
        (put "Cache-Control" "no-store" headers)
        (λ response. write_json (put "Cache-Control" "no-store" headers) 200 (issued response))
        result
      ≡ answered resp
    → IsPrivateAnswer resp
unfolding finish
finish-IsPrivateAnswer headers (ok a) resp h k =
    subst IsPrivateAnswer (answered_injective _ _ k)
      (json-IsPrivateAnswer headers 200 (issued a) (inl refl))
finish-IsPrivateAnswer headers (err e) resp h k =
    refused-IsPrivateAnswer headers e resp (h e refl) k

in_sessions-Raises :
    {S KeySet A : Type 0} {P : GoError → Type 0} (m : Session.Store → A × Session.Store)
    → Raises P (in_sessions {S = S} {KeySet = KeySet} m)
in_sessions-Raises m = record { at = λ s x q. cc }

module _ {S Key KeySet : Type 0} (p : Platform Key KeySet) (st : Stores S) (setup : Setup) where
  verify-IsRefusal :
      (now : Time) (up : Upstream KeySet) (token : String)
      → Raises IsRefusal (verify p now up token)
  verify-IsRefusal now up token = record {
    at = λ s e q. invalid_token-IsRefusal e ((verify_errors p now up token).at s e q);
  }

  validate_dpop_proof-IsRefusal :
      (rt : Runtime) (header htm htu ath : String)
      → Raises IsRefusal (validate_dpop_proof p rt header htm htu ath)
  validate_dpop_proof-IsRefusal rt header htm htu ath = record {
    at = λ s e q.
        invalid_request-IsRefusal e ((validate_dpop_proof_errors p rt header htm htu ath).at s e q);
  }

  require_bound_thumbprint-IsRefusal :
      (jkt : String) (key : Key) (mismatch : String)
      → OnError IsRefusal (require_bound_thumbprint p st setup jkt key mismatch)
  unfolding require_bound_thumbprint
  require_bound_thumbprint-IsRefusal jkt key mismatch = search (raises_rules, refusals) depth 20

  only_jwk-IsRefusal : (h : Headers Key) → OnError IsRefusal (only_jwk p h)
  unfolding only_jwk
  only_jwk-IsRefusal h = search (raises_rules, refusals) depth 20

  validate_proof_jwt-IsRefusal :
      (now : Time) (proof_jwt expected : String)
      → Raises {S = Service S KeySet} IsRefusal (validate_proof_jwt p now proof_jwt expected)
  unfolding validate_proof_jwt
  validate_proof_jwt-IsRefusal now proof_jwt expected =
      search (raises_rules, refusals, only_jwk-IsRefusal) depth 60

  validate_proof_nonce-IsRefusal :
      (proof_jwt c_nonce : String)
      → Raises {S = Service S KeySet} IsRefusal (validate_proof_nonce p st setup proof_jwt c_nonce)
  unfolding validate_proof_nonce no_match
  validate_proof_nonce-IsRefusal proof_jwt c_nonce =
      search (raises_rules, refusals, in_sessions-Raises) depth 60

  authorize-IsRefusal :
      (rt : Runtime) (up : Upstream KeySet) (token header path mismatch : String)
      → Raises {S = Service S KeySet} IsRefusal
          (authorize p st setup rt up token header path mismatch)
  unfolding authorize
  authorize-IsRefusal rt up token header path mismatch =
      search
        (
          raises_rules, refusals, verify-IsRefusal, validate_dpop_proof-IsRefusal,
          require_bound_thumbprint-IsRefusal,
        )
        depth 60

  -- Whatever is wrong with a credential request, the service refuses it with one of the three statuses.
  issue_credential-IsRefusal :
      (decode : String → Result CredentialRequest) (rt : Runtime) (up : Upstream KeySet)
      (token header body : String)
      → Raises {S = Service S KeySet} IsRefusal
          (issue_credential p st setup decode rt up token header body)
  unfolding issue_credential
  issue_credential-IsRefusal decode rt up token header body =
      search
        (
          raises_rules, refusals, authorize-IsRefusal, validate_proof_jwt-IsRefusal,
          validate_proof_nonce-IsRefusal, check_configuration-IsRefusal, record_with_data-IsRefusal,
          in_sessions-Raises,
        )
        depth 80

  module _ (headers : Dict String String) (decode : String → Result CredentialRequest)
      (rt : Runtime) (up : Upstream KeySet) (r : HttpRequest) where
    authorized_issuance-IsRefusal :
        Raises {S = Service S KeySet} IsRefusal
          (authorized_issuance p st setup headers decode rt up r)
    unfolding authorized_issuance
    authorized_issuance-IsRefusal =
        search (raises_rules, refusals, single_dpop_header-IsRefusal, issue_credential-IsRefusal)
          depth 60

    -- Every answer of the credential endpoint has the status 200, 400, 401 or 503, so that no request
    -- makes it answer with an internal server error, and forbids to store the answer.
    pub credential_endpoint_statuses :
        (s s' : Service S KeySet) (resp : Response)
        → credential_endpoint p st setup headers decode rt up r s ≡ (answered resp, s')
        → IsPrivateAnswer resp
    unfolding credential_endpoint serve_with
    credential_endpoint_statuses s s' resp h =
        finish-IsPrivateAnswer headers (authorized_issuance p st setup headers decode rt up r s).0
          resp (authorized_issuance-IsRefusal.at s) (ap (λ run. run.0) h)
