-- ===== src/Oid4vci/Metadata.antt =====
-- internal/oid4vci/metadata.go
use fikua_lab_issuer.Credentialconfig.{Config}
use fikua_lab_issuer.Prelude.{List, String, String-eq, [], concat, ◌∷◌}
use fikua_lab_issuer.Prelude.Dict.{Dict}

pub record IssuerDisplay : Type 0 where
  pub name : String
  pub locale : String

-- Response encryption and batch issuance are left unset.
pub record CredentialIssuerMetadata : Type 0 where
  pub credential_issuer : String
  pub authorization_servers : List String
  pub credential_endpoint : String
  pub nonce_endpoint : String
  pub notification_endpoint : String
  pub credential_configurations_supported : Dict String Config
  pub display : List IssuerDisplay

unfoldable pub build_credential_issuer_metadata :
    (base_url auth_server_url : String) → Dict String Config → CredentialIssuerMetadata
build_credential_issuer_metadata base_url auth_server_url configs = record {
  credential_issuer = base_url;
  authorization_servers = auth_server_url ∷ [];
  credential_endpoint = concat base_url "/oid4vci/v1/credential";
  nonce_endpoint = concat base_url "/oid4vci/v1/nonce";
  notification_endpoint = concat base_url "/oid4vci/v1/notification";
  credential_configurations_supported = configs;
  display = record { name = "Fikua Lab Issuer"; locale = "en" } ∷ [];
}
