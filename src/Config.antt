-- ===== src/Config.antt =====
-- internal/config/config.go: the configuration from the environment.
use fikua_lab_issuer.Platform.{second}
use fikua_lab_issuer.Prelude.{List, String, String-eq, [], if◌then◌else◌, ℕ, ◌*◌, ◌==◌, ◌∷◌}
use fikua_lab_issuer.Prelude.Texts.{split}

pub record Config : Type 0 where
  pub addr : String
  pub base_path : String
  pub base_url : String
  pub attestation_registry_url : String
  pub registry_refresh_interval : ℕ
  pub issuable_schemes : List String
  pub certs_dir : String
  pub dss_url : String
  pub dss_client_id : String
  pub dss_client_secret : String
  pub dss_credential_id : String
  pub dss_credential_password : String
  pub db_url : String
  pub auth_server_url : String

-- os.Getenv is an argument.
unfoldable pub getenv : (String → String) → (key fallback : String) → String
getenv env key fallback = if env key == "" then fallback else env key

-- strings.TrimSpace is an argument.
unfoldable pub trimmed : (String → String) → List String → List String
trimmed trim_space [] = []
trimmed trim_space (s ∷ rest) =
    let out = trimmed trim_space rest in if trim_space s == "" then out else trim_space s ∷ out

unfoldable pub split_csv : (String → String) → String → List String
unfolding trimmed
split_csv trim_space v = trimmed trim_space (split 44 v)

unfoldable pub load : (trim_space env : String → String) → Config
unfolding getenv split_csv
load trim_space env = record {
  addr = getenv env "ADDR" ":8080";
  base_path = getenv env "BASE_PATH" "";
  base_url = getenv env "FIKUA_BASE_URL" "https://issuer.fikua.com";
  attestation_registry_url =
      getenv env "FIKUA_ATTESTATION_REGISTRY_URL" "https://attestation-registry.fikua.com";
  registry_refresh_interval = 300 * second;
  issuable_schemes =
      split_csv trim_space
        (getenv env "FIKUA_ISSUABLE_SCHEMES" "urn:eudi:pid:1,urn:fikua:padro:barcelona:1");
  certs_dir = getenv env "FIKUA_CERTS_DIR" "./certs";
  dss_url = getenv env "FIKUA_DSS_URL" "";
  dss_client_id = getenv env "FIKUA_DSS_CLIENT_ID" "";
  dss_client_secret = getenv env "FIKUA_DSS_CLIENT_SECRET" "";
  dss_credential_id = getenv env "FIKUA_DSS_CREDENTIAL_ID" "";
  dss_credential_password = getenv env "FIKUA_DSS_CREDENTIAL_PASSWORD" "";
  db_url = getenv env "FIKUA_DB_URL" "";
  auth_server_url = getenv env "FIKUA_AUTH_SERVER_URL" "https://idp.fikua.com";
}
