-- ===== src/Issuance/State.antt =====
-- internal/issuance/service.go: the state of the service, what it is built with, its requests, and
-- the checks that need neither.
use fikua_lab_issuer.Session
use fikua_lab_issuer.Accesstoken.{Verifier}
use fikua_lab_issuer.Issuance.Record.{Record}
use fikua_lab_issuer.Oauth2.Jti.{JtiStore}
use fikua_lab_issuer.Oid4vci.Messages.{CredentialRequest}
use fikua_lab_issuer.Platform.{Members, Time, second}
use fikua_lab_issuer.Prelude.{
  Option, String, String-eq, [], concat, if◌then◌else◌, none, not, some, ℕ, ◌&&◌, ◌*◌, ◌==◌, ◌||◌,
  ◌∷◌,
}
use fikua_lab_issuer.Prelude.Dict.{Dict}
use fikua_lab_issuer.Prelude.Int.{pos, wrap64, ℤ, ℤ-eq, ◌+ℤ◌, ◌<ℤ◌}
use fikua_lab_issuer.Result.Exec.{
  Exec, GoError, Result, bad_request, err, error_text, invalid_credential_request, invalid_request,
  ok, unknown_credential_configuration, unknown_credential_identifier, zoom, panic,
}
use fikua_lab_issuer.Session.{
  invalidate_nonce, register_nonce, store_credential_offer, validate_nonce,
}
use fikua_lab_issuer.Statuslist.Token.{SigningKey}

abbrev pub status_list_id : String
status_list_id = "pid"

abbrev pub status_list_cache_ttl : ℕ
status_list_cache_ttl = 60 * second

abbrev pub pid_config_id : String
pid_config_id = "urn:eudi:pid:1"

abbrev pub pid_mdoc_config_id : String
pid_mdoc_config_id = "urn:eudi:pid:1.mdoc"

pub record Service (S KeySet : Type 0) : Type 0 where
  pub sessions : Session.Store
  pub issuances : S
  pub jtis : JtiStore
  pub tokens : Verifier KeySet
  pub status_cache_token : String
  pub status_cache_exp : Time

-- What the service is built with: its URL and its key.
pub record Setup : Type 0 where
  pub base_url : String
  pub issuer_key : SigningKey

pub record TriggerIssuanceRequest : Type 0 where
  pub credential_type : String
  pub credential_data : Option Members
  pub source_type : String
  pub source_ref : String

pub record TriggerIssuanceResult : Type 0 where
  pub issuance_id : String
  pub credential_offer_uri : String

-- The tokens that one triggering draws.
pub record Draws : Type 0 where
  pub record_id : String
  pub issuer_state : String
  pub offer_id : String

abbrev pub failed : String → GoError → GoError
failed prefix (panic message) = panic message
failed prefix e = bad_request invalid_request (concat prefix (error_text e))

abbrev pub denied : String → GoError
denied description = bad_request invalid_request description

-- The parts of the state, for their methods.
abbrev pub in_sessions :
    {S KeySet A : Type 0} → (Session.Store → A × Session.Store) → Exec (Service S KeySet) A
in_sessions m s = (ok (m s.sessions).0, record s { sessions = (m s.sessions).1 })

abbrev pub in_issuances : {S KeySet A : Type 0} → Exec S A → Exec (Service S KeySet) A
in_issuances m = zoom (λ s. s.issuances) (λ t s. record s { issuances = t }) m

abbrev pub in_jtis : {S KeySet A : Type 0} → Exec JtiStore A → Exec (Service S KeySet) A
in_jtis m = zoom (λ s. s.jtis) (λ t s. record s { jtis = t }) m

abbrev pub in_tokens : {S KeySet A : Type 0} → Exec (Verifier KeySet) A → Exec (Service S KeySet) A
in_tokens m = zoom (λ s. s.tokens) (λ t s. record s { tokens = t }) m

-- `idx + 1` of the highest index, as the loop over the entries finds it
unfoldable pub list_size : ℤ → Dict ℤ ℕ → ℤ
list_size size [] = size
list_size size ((idx, _) ∷ entries) =
    list_size (if size <ℤ wrap64 (idx +ℤ pos 1) then wrap64 (idx +ℤ pos 1) else size) entries

unfoldable pub check_configuration : CredentialRequest → Result (Unit {0})
check_configuration req =
    if req.credential_configuration_id == "" && req.credential_identifier == ""
    then err (
        bad_request invalid_credential_request
          "credential_configuration_id or credential_identifier is required")
    else if not (req.credential_identifier == "")
    then err (
        bad_request unknown_credential_identifier
          "Identifier-based credential requests are not supported")
    else if not (req.credential_configuration_id == pid_config_id)
        && not (req.credential_configuration_id == pid_mdoc_config_id)
    then err (
        bad_request unknown_credential_configuration
          (concat "Unknown credential_configuration_id: " req.credential_configuration_id))
    else ok tt

unfoldable pub no_data : GoError
no_data =
    denied
      "Issuance record has no credential data. Provide credential_data when triggering issuance."

-- `!ok || rec.CredentialData == "" || rec.CredentialData == "{}"`
unfoldable pub record_with_data : Option Record → Result Record
unfolding no_data
record_with_data none = err no_data
record_with_data (some rec) =
    if rec.credential_data == "" || rec.credential_data == "{}" then err no_data else ok rec
