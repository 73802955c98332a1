-- ===== src/Credentialconfig.antt =====
-- internal/credentialconfig/builder.go: the credential configurations of a scheme.
pub mod Labels
pub mod Supported
pub mod Schemas
use fikua_lab_issuer.Prelude.{Nat-eq}
use fikua_lab_issuer.Credentialconfig.Labels.{claim_label, is_date_type, is_scalar_type}
use fikua_lab_issuer.Platform.{Json, Platform, int, str}
use fikua_lab_issuer.Prelude.{
  Bool, List, Option, String, String-eq, [], concat, if◌then◌else◌, length, none, not, some, ◌==◌,
  ◌||◌, ◌∷◌,
}
use fikua_lab_issuer.Prelude.Dict.{Dict, put}
use fikua_lab_issuer.Prelude.Int.{negsuc}
use fikua_lab_issuer.Registryclient.Types.{
  ClaimDefinition, Definition, FormatSchema, format_mdoc, format_sd_jwt_vc, presence_mandatory,
  schema_for,
}

pub record Display : Type 0 where
  pub name : String
  pub locale : String
  pub description : String

pub record ClaimDisplay : Type 0 where
  pub name : String
  pub locale : String

pub record Claim : Type 0 where
  pub path : List String
  pub display : List ClaimDisplay
  pub mandatory : Bool
  pub is_date : Bool

pub record CredentialMetadata : Type 0 where
  pub display : List Display
  pub claims : List Claim

-- `proof_signing_algs` is ProofTypesSupported.JWT.ProofSigningAlgValuesSupported.
pub record Config : Type 0 where
  pub format : String
  pub scope : String
  pub cryptographic_binding_methods : List String
  pub credential_signing_algs : List Json
  pub proof_signing_algs : List String
  pub vct : String
  pub doc_type : String
  pub credential_metadata : CredentialMetadata

unfoldable pub configuration_id : String → String → String
configuration_id scheme_id format =
    if format == format_mdoc then concat scheme_id ".mdoc" else scheme_id

module _ {Key KeySet : Type 0} (p : Platform Key KeySet) where
  unfoldable pub claim_of : ClaimDefinition → Claim
  claim_of c = record {
    path = c.path;
    display = record { name = claim_label p c.data_identifier; locale = "en" } ∷ [];
    mandatory = c.presence == presence_mandatory;
    is_date = is_date_type p c.data_type;
  }

  unfoldable pub build_claims : List ClaimDefinition → List Claim
  unfolding claim_of
  build_claims [] = []
  build_claims (c ∷ claims) =
      let rest = build_claims claims in
      if not (length c.path == 1) || not (is_scalar_type p c.data_type)
      then rest
      else claim_of c ∷ rest

  -- The switch over the format
  unfoldable pub with_format : String → FormatSchema → Config → Config
  with_format format schema cfg =
      if format == format_sd_jwt_vc
      then record cfg {
        format = "dc+sd-jwt";
        cryptographic_binding_methods = "jwk" ∷ [];
        credential_signing_algs = str "ES256" ∷ [];
        vct = schema.type_identifier;
      }
      else if format == format_mdoc
      then record cfg {
        format = "mso_mdoc";
        cryptographic_binding_methods = "cose_key" ∷ [];
        credential_signing_algs = int (negsuc 6) ∷ [];
        doc_type = schema.type_identifier;
      }
      else cfg

  unfoldable pub build_config : Definition → String → FormatSchema → Config
  unfolding build_claims with_format
  build_config def format schema = with_format format schema (record {
    format = "";
    scope = def.scheme.id;
    cryptographic_binding_methods = [];
    credential_signing_algs = [];
    proof_signing_algs = "ES256" ∷ [];
    vct = "";
    doc_type = "";
    credential_metadata = record {
      display =
          record { name = def.rulebook.attestation_type; locale = "en"; description = "" } ∷ [];
      claims = build_claims schema.claims;
    };
  })

  -- One round of the loop over the supported formats
  unfoldable pub add_config :
      Definition → String → Option FormatSchema → Dict String Config → Dict String Config
  unfolding build_config configuration_id
  add_config def format none out = out
  add_config def format (some schema) out =
      put (configuration_id def.scheme.id format) (build_config def format schema) out

  unfoldable pub add_configs : Definition → List String → Dict String Config → Dict String Config
  unfolding add_config
  add_configs def [] out = out
  add_configs def (format ∷ formats) out =
      add_configs def formats (add_config def format (schema_for def.scheme format) out)

  unfoldable pub build_configs : Definition → Dict String Config
  unfolding add_configs
  build_configs def = add_configs def def.scheme.supported_formats []
