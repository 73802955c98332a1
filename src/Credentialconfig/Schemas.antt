-- ===== src/Credentialconfig/Schemas.antt =====
-- Build of internal/credentialconfig/builder.go: what the configurations of the two formats hold.
use mathlib.Core.Option
use fikua_lab_issuer.Prelude.{Nat-eq}
use fikua_lab_issuer.Credentialconfig.{
  Claim, Config, build_claims, build_config, build_configs, claim_of, configuration_id, with_format,
}
use fikua_lab_issuer.Credentialconfig.Supported.{IsKnownFormat, get-build_configs, listed}
use fikua_lab_issuer.Credentialconfig.Labels.{claim_label, is_date_type, is_scalar_type}
use fikua_lab_issuer.Platform.{Platform, int, str}
use fikua_lab_issuer.Prelude.{
  All, Bool, Bool-cases, List, Option, String, String-eq, [], ap, arith, concat, eq_iff, false,
  if◌then◌else◌, inl, inr, length, none, refl, some, sym, true, ◌&&◌, ◌==◌, ◌∙◌, ◌∷◌, ◌≡◌, ◌≢◌, ◌⊎◌,
}
use fikua_lab_issuer.Prelude.Dict.{get}
use fikua_lab_issuer.Prelude.Int.{negsuc}
use fikua_lab_issuer.Registryclient.Cache.{all}
use fikua_lab_issuer.Registryclient.Types.{
  ClaimDefinition, Definition, FormatSchema, find_schema, format_mdoc, format_sd_jwt_vc, schema_for,
}

-- The first schema of a format, or none if there is no such schema.
pub IsFirstSchema : String → List FormatSchema → Option FormatSchema → Type 0
IsFirstSchema f [] o = o ≡ none
IsFirstSchema f (s ∷ schemas) o =
    ((s.format ≡ f) × (o ≡ some s)) ⊎ ((s.format ≢ f) × IsFirstSchema f schemas o)

find_schema-IsFirstSchema :
    (f : String) (schemas : List FormatSchema) → IsFirstSchema f schemas (find_schema f schemas)
unfolding find_schema IsFirstSchema
find_schema-IsFirstSchema f [] = refl
find_schema-IsFirstSchema f (s ∷ schemas) = elim (Bool-cases (s.format == f)) [
  | inl e ↦ inl ((eq_iff s.format f).0 e, rw e refl)
  | inr e ↦ inr (ground (arith, eq_iff s.format f), rw e (find_schema-IsFirstSchema f schemas))
]

module _ {Key KeySet : Type 0} (p : Platform Key KeySet) where
  -- The claims of a schema that are shown: those at the top level of a scalar type.
  pub shown : ClaimDefinition → Bool
  shown c = length c.path == 1 && is_scalar_type p c.data_type

  pub shown_claims : List ClaimDefinition → List Claim
  shown_claims [] = []
  shown_claims (c ∷ claims) =
      let rest = shown_claims claims in
      if shown c
      then record {
        path = c.path;
        display = record { name = claim_label p c.data_identifier; locale = "en" } ∷ [];
        mandatory = c.presence == "mandatory";
        is_date = is_date_type p c.data_type;
      }
        ∷ rest
      else rest

  build_claims-shown : (claims : List ClaimDefinition) → build_claims p claims ≡ shown_claims claims
  unfolding build_claims claim_of shown_claims shown
  build_claims-shown [] = refl
  build_claims-shown (c ∷ claims) = elim (Bool-cases (length c.path == 1)) [
    | inl e ↦ elim (Bool-cases (is_scalar_type p c.data_type)) [
      | inl k ↦ rw (e, k) (ap (λ t. claim_of p c ∷ t) (build_claims-shown claims))
      | inr k ↦ rw (e, k) (build_claims-shown claims)
    ]
    | inr e ↦ rw e (build_claims-shown claims)
  ]

  -- The configuration of a schema for an SD-JWT VC: a `vct`, and proofs by a JWK.
  pub sd_jwt_config : Definition → FormatSchema → Config
  sd_jwt_config def schema = record {
    format = "dc+sd-jwt";
    scope = def.scheme.id;
    cryptographic_binding_methods = "jwk" ∷ [];
    credential_signing_algs = str "ES256" ∷ [];
    proof_signing_algs = "ES256" ∷ [];
    vct = schema.type_identifier;
    doc_type = "";
    credential_metadata = record {
      display =
          record { name = def.rulebook.attestation_type; locale = "en"; description = "" } ∷ [];
      claims = shown_claims schema.claims;
    };
  }

  -- The configuration of a schema for an mdoc: a doctype, a COSE key and ES256 as the number -7.
  pub mdoc_config : Definition → FormatSchema → Config
  mdoc_config def schema = record {
    format = "mso_mdoc";
    scope = def.scheme.id;
    cryptographic_binding_methods = "cose_key" ∷ [];
    credential_signing_algs = int (negsuc 6) ∷ [];
    proof_signing_algs = "ES256" ∷ [];
    vct = "";
    doc_type = schema.type_identifier;
    credential_metadata = record {
      display =
          record { name = def.rulebook.attestation_type; locale = "en"; description = "" } ∷ [];
      claims = shown_claims schema.claims;
    };
  }

  build_config-sd_jwt :
      (def : Definition) (schema : FormatSchema)
      → build_config p def format_sd_jwt_vc schema ≡ sd_jwt_config def schema
  unfolding build_config with_format sd_jwt_config
  build_config-sd_jwt def schema = rw (build_claims-shown schema.claims) refl

  build_config-mdoc :
      (def : Definition) (schema : FormatSchema)
      → build_config p def format_mdoc schema ≡ mdoc_config def schema
  unfolding build_config with_format mdoc_config
  build_config-mdoc def schema = rw (build_claims-shown schema.claims) refl

  -- What a scheme advertises for a format: the configuration of the format's first schema, if the
  -- format is listed as supported and has a schema; else nothing.
  pub record IsConfigured (def : Definition) (f : String) (config : FormatSchema → Config)
      (found : Option Config) : Type 0 where
    pub schema : Option FormatSchema
    pub first : IsFirstSchema f def.scheme.schemas schema
    pub built :
        found ≡ (if listed f def.scheme.supported_formats then Option.map config schema else none)

  map_config :
      (f g : FormatSchema → Config)
      → ((s : FormatSchema) → f s ≡ g s)
      → (b : Bool) (o : Option FormatSchema)
      → (if b then Option.map f o else none) ≡ (if b then Option.map g o else none)
  map_config f g h true none = refl
  map_config f g h true (some s) = ap some (h s)
  map_config f g h false o = refl

  configured :
      (def : Definition) (f : String) (config : FormatSchema → Config) (key : String)
      → configuration_id def.scheme.id f ≡ key
      → ((s : FormatSchema) → build_config p def f s ≡ config s)
      → IsKnownFormat f
      → All IsKnownFormat def.scheme.supported_formats
      → IsConfigured def f config (get key (build_configs p def))
  unfolding schema_for
  configured def f config key e same known all = record {
    schema = schema_for def.scheme f;
    first = find_schema-IsFirstSchema f def.scheme.schemas;
    built =
        ap (λ k. get k (build_configs p def)) (sym e)
        ∙ get-build_configs p def f known all
        ∙ map_config (build_config p def f) config same (listed f def.scheme.supported_formats)
            (schema_for def.scheme f);
  }

  -- For a scheme that lists known formats only: under the scheme's id stands the SD-JWT configuration of
  -- the first schema of this format, and under the id with the suffix .mdoc the mdoc configuration of
  -- the first schema of that format, each if the format is listed as supported and has a schema; else
  -- there is none under that id. A configuration holds the type identifier and the shown claims of its schema.
  pub build_configs-IsConfigured :
      (def : Definition)
      → All IsKnownFormat def.scheme.supported_formats
      → IsConfigured def "dc+sd-jwt" (sd_jwt_config def) (get def.scheme.id (build_configs p def))
        × IsConfigured def "mso_mdoc"
            (mdoc_config def)
            (get (concat def.scheme.id ".mdoc") (build_configs p def))
  unfolding configuration_id IsKnownFormat
  build_configs-IsConfigured def all = (
    configured def format_sd_jwt_vc (sd_jwt_config def) def.scheme.id refl (build_config-sd_jwt def)
        (inl refl) all,
    configured def format_mdoc (mdoc_config def) (concat def.scheme.id ".mdoc") refl
        (build_config-mdoc def) (inr refl) all,
  )
