-- ===== src/Registryclient/Types.antt =====
-- internal/registryclient/types.go
use fikua_lab_issuer.Prelude.{
  List, Option, String, String-eq, [], if◌then◌else◌, none, some, ◌==◌, ◌∷◌,
}

abbrev pub format_sd_jwt_vc : String
format_sd_jwt_vc = "dc+sd-jwt"

abbrev pub format_mdoc : String
format_mdoc = "mso_mdoc"

abbrev pub presence_mandatory : String
presence_mandatory = "mandatory"

pub record ClaimDefinition : Type 0 where
  pub data_identifier : String
  pub path : List String
  pub data_type : String
  pub presence : String
  pub namespace : String
  pub disclosability : String
  pub enum : List String

pub record FormatSchema : Type 0 where
  pub format : String
  pub type_identifier : String
  pub claims : List ClaimDefinition

pub record AttestationScheme : Type 0 where
  pub id : String
  pub catalogue_id : String
  pub version : String
  pub supported_formats : List String
  pub schemas : List FormatSchema

pub record AttestationRulebook : Type 0 where
  pub attestation_type : String

pub record Definition : Type 0 where
  pub rulebook : AttestationRulebook
  pub scheme : AttestationScheme

-- The loop of `SchemaFor`
unfoldable pub find_schema : String → List FormatSchema → Option FormatSchema
find_schema format [] = none
find_schema format (s ∷ schemas) =
    let rest = find_schema format schemas in if s.format == format then some s else rest

unfoldable pub schema_for : AttestationScheme → String → Option FormatSchema
unfolding find_schema
schema_for s format = find_schema format s.schemas
