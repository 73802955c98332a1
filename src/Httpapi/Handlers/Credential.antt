-- ===== src/Httpapi/Handlers/Credential.antt =====
-- The credential endpoint of internal/httpapi/issuance_handlers.go: what stands behind a credential
-- that is sent.
use fikua_lab_issuer.Accesstoken.{Upstream}
use fikua_lab_issuer.Httpapi.Handlers.{HttpRequest, authorized_issuance}
use fikua_lab_issuer.Httpapi.Params.{
  extract_access_token, has_case_insensitive_prefix, without_prefix,
}
use fikua_lab_issuer.Httpapi.Responses.{
  Response, answered, finish, issued, write_json, write_oauth_error,
}
use fikua_lab_issuer.Issuance.Interface.{Stores}
use fikua_lab_issuer.Issuance.Service.Credential.{IsIssuance}
use fikua_lab_issuer.Issuance.State.{Service, Setup}
use fikua_lab_issuer.Oauth2.Dpop.{Runtime, single_dpop_header}
use fikua_lab_issuer.Oauth2.Fold.{fold_byte}
use fikua_lab_issuer.Oid4vci.Messages.{CredentialRequest, CredentialResponse}
use fikua_lab_issuer.Platform.{Platform}
use fikua_lab_issuer.Prelude.{String, String-eq, false, refl, true, ◌≡◌, ◌≢◌}
use fikua_lab_issuer.Prelude.Dict.{Dict}
use fikua_lab_issuer.Result.Ensures.{Ensures, Ensures-lift, Ensures-mapped, Ensures-require}
use fikua_lab_issuer.Result.Exec.{GoError, Result, err, exception, ok, panic, plain}
use fikua_lab_issuer.Httpapi.Handlers.{credential_endpoint}
use fikua_lab_issuer.Httpapi.Responses.{serve_with}
use fikua_lab_issuer.Issuance.Service.Credential.{issue_credential-IsIssuance}
use fikua_lab_issuer.Prelude.{Bool, ap, arith, not, ◌∙◌}
use fikua_lab_issuer.Prelude.Dict.{put}
use fikua_lab_issuer.Issuance.Service.Credential.{nonempty}

any_case :
    (s : String) → has_case_insensitive_prefix s "bearer " ≡ has_case_insensitive_prefix s "Bearer "
unfolding has_case_insensitive_prefix fold_byte
any_case String.[] = refl
any_case (String.◌∷◌ c s) = refl

dpop_scheme :
    (auth_header : String)
    → has_case_insensitive_prefix auth_header "bearer " ≡ false
    → extract_access_token auth_header ≢ ""
    → (has_case_insensitive_prefix auth_header "DPoP " ≡ true)
      × (extract_access_token auth_header ≡ without_prefix auth_header "DPoP ")
unfolding extract_access_token
dpop_scheme auth_header h k = ground (arith, any_case auth_header)

failure_sent :
    (headers : Dict String String) (e : GoError) (resp : Response) (response : CredentialResponse)
    → write_oauth_error headers e ≡ answered resp
    → resp.body ≡ issued response
    → ⊥
unfolding write_oauth_error write_json
failure_sent headers (exception x) resp response h k = cc
failure_sent headers (plain message) resp response h k = cc
failure_sent headers (panic message) resp response h k = cc

sent :
    (headers : Dict String String) (result : Result CredentialResponse) (resp : Response)
    (response : CredentialResponse)
    → finish headers (λ a. write_json headers 200 (issued a)) result ≡ answered resp
    → resp.body ≡ issued response
    → result ≡ ok response
unfolding finish write_json
sent headers (ok a) resp response h k = ground arith
sent headers (err e) resp response h k = absurd (failure_sent headers e resp response h k)

flipped : (b : Bool) → not b ≡ true → b ≡ false
flipped b h = ground arith

module _ {S Key KeySet : Type 0} (p : Platform Key KeySet) (st : Stores S) (setup : Setup)
    (headers : Dict String String) (decode : String → Result CredentialRequest) (rt : Runtime)
    (up : Upstream KeySet) (r : HttpRequest) where
  -- The token came with the DPoP scheme and at most one proof, and the issuance stands behind it.
  pub record IsIssuedAnswer (s s' : Service S KeySet) (response : CredentialResponse) : Type 0 where
    pub dpop_header : String
    pub request_body : String
    pub scheme : has_case_insensitive_prefix (r.header "Authorization") "DPoP " ≡ true
    pub token : without_prefix (r.header "Authorization") "DPoP " ≢ ""
    pub single : single_dpop_header (r.header_values "DPoP") ≡ ok dpop_header
    pub read_body : r.body ≡ ok request_body
    pub issuance :
        IsIssuance p st setup decode rt up
          (extract_access_token (r.header "Authorization"))
          dpop_header
          request_body
          s
          s'
          response

  authorized_issuance-IsIssuedAnswer :
      (s : Service S KeySet)
      → Ensures
          (λ response s'. IsIssuedAnswer s s' response)
          (authorized_issuance p st setup headers decode rt up r s)
  unfolding authorized_issuance
  authorized_issuance-IsIssuedAnswer s = Ensures-require _ _ _ _ λ present.
      Ensures-require _ _ _ _ λ other. Ensures-lift _ _ _ λ dpop_header single.
        Ensures-mapped _ _ _ _ λ body read_body. record {
          at = λ response s' e.
              let (scheme, token) =
                dpop_scheme (r.header "Authorization") (flipped _ other) (nonempty _ present) in
              record {
                dpop_header = dpop_header;
                request_body = body;
                scheme = scheme;
                token = λ none_left. nonempty _ present (token ∙ none_left);
                single = single;
                read_body = read_body;
                issuance =
                    issue_credential-IsIssuance p st setup decode rt up
                      (extract_access_token (r.header "Authorization")) dpop_header body s response
                      s' e;
              };
        }

  -- If the credential endpoint sends a credential, the access token came with the DPoP scheme and with
  -- at most one DPoP header, the body was read, and everything that an issuance needs stood behind the
  -- request.
  pub credential_endpoint-IsIssuedAnswer :
      (s s' : Service S KeySet) (resp : Response) (response : CredentialResponse)
      → credential_endpoint p st setup headers decode rt up r s ≡ (answered resp, s')
      → resp.body ≡ issued response
      → IsIssuedAnswer s s' response
  unfolding credential_endpoint serve_with
  credential_endpoint-IsIssuedAnswer s s' resp response h k =
      (authorized_issuance-IsIssuedAnswer s).at response s' (
        ap (λ t. (t, (authorized_issuance p st setup headers decode rt up r s).1))
          (sent (put "Cache-Control" "no-store" headers)
            (authorized_issuance p st setup headers decode rt up r s).0 resp response
            (ap (λ run. run.0) h) k)
        ∙ ap (λ t. (ok response, t)) (ap (λ run. run.1) h))
