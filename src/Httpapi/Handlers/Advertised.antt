-- ===== src/Httpapi/Handlers/Advertised.antt =====
-- credentialIssuerMetadata of internal/httpapi/handlers.go: which configurations are advertised.
use fikua_lab_issuer.Credentialconfig.{Config, build_configs}
use fikua_lab_issuer.Httpapi.Handlers.{copy_configs, issuable_configs}
use fikua_lab_issuer.Platform.{Platform}
use fikua_lab_issuer.Prelude.{
  List, Option, String, String-eq, [], arith, inl, inr, none, refl, some, true, ◌||◌, ◌↔◌, ◌∷◌, ◌≡◌,
  ◌⊎◌,
}
use fikua_lab_issuer.Prelude.Dict.{Dict, get, get-put, has, put}
use fikua_lab_issuer.Registryclient.Cache.{Cache, get_definition}
use fikua_lab_issuer.Registryclient.Types.{Definition}
use fikua_lab_issuer.Httpapi.Handlers.{Handler, add_scheme, credential_issuer_metadata}
use fikua_lab_issuer.Httpapi.Responses.{answered, metadata, write_json}
use fikua_lab_issuer.Oid4vci.Metadata.{CredentialIssuerMetadata, build_credential_issuer_metadata}
use fikua_lab_issuer.Prelude.{Bool, ap, false, sym, ◌∙◌}

has-copy_configs :
    (k : String) (m configs : Dict String Config)
    → has k (copy_configs m configs) ≡ (has k m || has k configs)
unfolding copy_configs has get
has-copy_configs k [] configs = refl
has-copy_configs k ((id, cfg) ∷ m) configs =
    ground (arith, has-copy_configs k m (put id cfg configs), get-put id k cfg configs)

or_true : (a b : Bool) → (a || b) ≡ true → (a ≡ true) ⊎ (b ≡ true)
or_true true b h = inl refl
or_true false b h = inr h

some_injective : (a b : Definition) → some a ≡ some b → b ≡ a
some_injective a b h = ground arith

module _ {Key KeySet : Type 0} (p : Platform Key KeySet) (cache : Cache) where
  -- One of the schemes is in the catalogue, with a configuration under this id.
  pub Offers : String → List String → Type 0
  Offers k [] = ⊥
  Offers k (id ∷ ids) =
      ((def : Definition) × (get_definition id cache ≡ some def)
        × (has k (build_configs p def) ≡ true))
      ⊎ Offers k ids

  nothing_before : (k : String) {A : Type 0} → A ⊎ (has {K = String} {V = Config} k [] ≡ true) → A
  unfolding has get
  nothing_before k (inl a) = a
  nothing_before k (inr h) = cc

  module _ (range : Dict String Config → Dict String Config)
      (same : (m : Dict String Config) (k : String) → has k (range m) ≡ has k m) where
    split_has :
        (k : String) (def : Definition) (configs : Dict String Config)
        → has k (copy_configs (range (build_configs p def)) configs) ≡ true
        → ((d : Definition) × (some def ≡ some d) × (has k (build_configs p d) ≡ true))
          ⊎ (has k configs ≡ true)
    split_has k def configs h =
        elim (or_true _ _ (
          sym (ap (λ b. b || has k configs) (same (build_configs p def) k))
          ∙ sym (has-copy_configs k (range (build_configs p def)) configs)
          ∙ h)) [ inl x ↦ inl (def, refl, x) | inr x ↦ inr x ]

    join_has :
        (k : String) (def : Definition) (configs : Dict String Config)
        → (has k (build_configs p def) ≡ true) ⊎ (has k configs ≡ true)
        → has k (copy_configs (range (build_configs p def)) configs) ≡ true
    join_has k def configs h = ground (
      arith,
      has-copy_configs k (range (build_configs p def)) configs,
      same (build_configs p def) k,
    )

    add_scheme_iff :
        (k : String) (o : Option Definition) (configs : Dict String Config)
        → (has k (add_scheme p range o configs) ≡ true) ↔ (
            ((def : Definition) × (o ≡ some def) × (has k (build_configs p def) ≡ true))
            ⊎ (has k configs ≡ true))
    unfolding add_scheme
    add_scheme_iff k none configs = (λ h. inr h, λ h. elim h [ inl (d, e, x) ↦ cc | inr x ↦ x ])
    add_scheme_iff k (some def) configs = (
      λ h. split_has k def configs h,
      λ h. elim h [
        | inl (d, e, x) ↦ join_has k def configs (inl (rw (← some_injective _ _ e) x))
        | inr x ↦ join_has k def configs (inr x)
      ],
    )

    issuable_configs_iff :
        (k : String) (schemes : List String) (configs : Dict String Config)
        → (has k (issuable_configs p range cache schemes configs) ≡ true)
          ↔ (Offers k schemes ⊎ (has k configs ≡ true))
    unfolding issuable_configs Offers
    issuable_configs_iff k [] configs = (λ h. inr h, λ h. elim h [ inl x ↦ absurd x | inr x ↦ x ])
    issuable_configs_iff k (id ∷ schemes) configs =
        let next : Dict String Config = add_scheme p range (get_definition id cache) configs in
        let rest = issuable_configs_iff k schemes next in
        let this = add_scheme_iff k (get_definition id cache) configs in
        (
          λ h. elim (rest.0 h) [
            | inl x ↦ inl (inr x)
            | inr x ↦ elim (this.0 x) [ inl y ↦ inl (inl y) | inr y ↦ inr y ]
          ],
          λ h. elim h [
            | inl (inl y) ↦ rest.1 (inr (this.1 (inl y)))
            | inl (inr x) ↦ rest.1 (inl x)
            | inr y ↦ rest.1 (inr (this.1 (inr y)))
          ],
        )

    -- A configuration is advertised exactly if one of the issuable schemes is in the catalogue and has
    -- it, in whatever order the configurations of a scheme are ranged over.
    pub credential_issuer_metadata_iff :
        (h : Handler) (headers : Dict String String) (k : String)
        → (md : CredentialIssuerMetadata) × (credential_issuer_metadata p range h cache headers
            ≡ answered (write_json headers 200 (metadata md)))
          × ((has k md.credential_configurations_supported ≡ true) ↔ Offers k h.issuable_schemes)
    unfolding credential_issuer_metadata build_credential_issuer_metadata
    credential_issuer_metadata_iff h headers k = (
      build_credential_issuer_metadata h.base_url h.auth_server_url
          (issuable_configs p range cache h.issuable_schemes []),
      refl,
      (
        λ x. nothing_before k ((issuable_configs_iff k h.issuable_schemes []).0 x),
        λ x. (issuable_configs_iff k h.issuable_schemes []).1 (inl x),
      ),
    )
