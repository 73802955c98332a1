-- ===== src/Tests/Registries.antt =====
-- The theorems about the catalogue and the configurations, at concrete inputs.
use fikua_lab_issuer.Prelude.{String-eq}
use fikua_lab_issuer.Credentialconfig.{build_configs}
use fikua_lab_issuer.Credentialconfig.Schemas.{
  IsConfigured, build_configs-IsConfigured, mdoc_config, sd_jwt_config,
}
use fikua_lab_issuer.Httpapi.Handlers.{Handler, credential_issuer_metadata}
use fikua_lab_issuer.Httpapi.Handlers.Advertised.{Offers, credential_issuer_metadata_iff}
use fikua_lab_issuer.Httpapi.Responses.{answered, metadata, write_json}
use fikua_lab_issuer.Oid4vci.Metadata.{CredentialIssuerMetadata}
use fikua_lab_issuer.Prelude.{List, [], false, inl, inr, refl, true, ◌↔◌, ◌∷◌, ◌≡◌}
use fikua_lab_issuer.Prelude.Dict.{get, has}
use fikua_lab_issuer.Registryclient.Cache.{Cache, new_cache, refresh, start, ticks}
use fikua_lab_issuer.Registryclient.Current.{IsSnapshot, last_failed, last_good, ticks-IsSnapshot}
use fikua_lab_issuer.Registryclient.Types.{Definition, FormatSchema}
use fikua_lab_issuer.Result.Exec.{Result, err, ok, plain}
use fikua_lab_issuer.Tests.World.{world}
use fikua_lab_issuer.Credentialconfig.Supported.{IsKnownFormat}
use fikua_lab_issuer.Registryclient.Types.{ClaimDefinition}

abbrev family_name : ClaimDefinition
family_name = record {
  data_identifier = "family_name";
  path = "family_name" ∷ [];
  data_type = "tstr";
  presence = "mandatory";
  namespace = "";
  disclosability = "";
  enum = [];
}

abbrev pub pid_schema : FormatSchema
pid_schema = record {
  format = "dc+sd-jwt";
  type_identifier = "urn:eudi:pid:1";
  claims = family_name ∷ [];
}

abbrev mdoc_schema : FormatSchema
mdoc_schema = record {
  format = "mso_mdoc";
  type_identifier = "eu.europa.ec.eudi.pid.1";
  claims = family_name ∷ [];
}

abbrev pub pid_definition : Definition
pid_definition = record {
  rulebook = record { attestation_type = "Person Identification Data" };
  scheme = record {
    id = "urn:eudi:pid:1";
    catalogue_id = "";
    version = "1";
    supported_formats = "dc+sd-jwt" ∷ "mso_mdoc" ∷ [];
    schemas = pid_schema ∷ mdoc_schema ∷ [];
  };
}

abbrev pub catalogue : Cache
catalogue = (start (ok (pid_definition ∷ [])) new_cache).1

-- An outage, an answer, and another outage
abbrev answers : List (Result (List Definition))
answers = err (plain "timeout") ∷ ok (pid_definition ∷ []) ∷ err (plain "timeout") ∷ []

ticks-IsSnapshot_example :
    IsSnapshot
      (last_good (pid_definition ∷ []) answers)
      (last_failed false answers)
      (ticks answers catalogue)
unfolding start refresh
ticks-IsSnapshot_example = ticks-IsSnapshot answers (pid_definition ∷ []) catalogue refl

build_configs-IsConfigured_example :
    IsConfigured world pid_definition "dc+sd-jwt"
      (sd_jwt_config world pid_definition)
      (get "urn:eudi:pid:1" (build_configs world pid_definition))
    × IsConfigured world pid_definition "mso_mdoc"
        (mdoc_config world pid_definition)
        (get "urn:eudi:pid:1.mdoc" (build_configs world pid_definition))
unfolding IsKnownFormat
build_configs-IsConfigured_example =
    build_configs-IsConfigured world pid_definition (inl refl, (inr refl, tt))

abbrev handler : Handler
handler = record {
  base_url = "https://issuer";
  auth_server_url = "https://idp";
  issuable_schemes = "urn:eudi:pid:1" ∷ "urn:other" ∷ [];
  jwk_set_json = ok "{}";
  open_api_spec = "";
}

credential_issuer_metadata_iff_example :
    (md : CredentialIssuerMetadata) × (credential_issuer_metadata world
        (λ m. m)
        handler
        catalogue
        []
      ≡ answered (write_json [] 200 (metadata md)))
    × ((has "urn:eudi:pid:1" md.credential_configurations_supported ≡ true)
        ↔ Offers world catalogue "urn:eudi:pid:1" handler.issuable_schemes)
credential_issuer_metadata_iff_example =
    credential_issuer_metadata_iff world catalogue (λ m. m) (λ m k. refl) handler []
      "urn:eudi:pid:1"
