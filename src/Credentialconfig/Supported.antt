-- ===== src/Credentialconfig/Supported.antt =====
-- Build of internal/credentialconfig/builder.go: which configurations a scheme has.
use mathlib.Core.Option
use Prim.Native.String.append
use Prim.Native.String.count
use Prim.Native.String.{String, count}
use fikua_lab_issuer.Credentialconfig.{
  Config, add_config, add_configs, build_config, configuration_id,
}
use fikua_lab_issuer.Platform.{Platform}
use fikua_lab_issuer.Prelude.{
  All, Bool, List, Option, String-eq, [], concat, false, if◌then◌else◌, inl, inr, none, refl, some,
  sym, true, ◌+◌, ◌==◌, ◌∙◌, ◌∷◌, ◌≡◌, ◌≢◌, ◌⊎◌,
}
use fikua_lab_issuer.Prelude.Dict.{Dict, get, get-put_ne, get-put_self}
use fikua_lab_issuer.Registryclient.Types.{
  Definition, FormatSchema, format_mdoc, format_sd_jwt_vc, schema_for,
}
use fikua_lab_issuer.Prelude.{ap, arith}
use fikua_lab_issuer.Credentialconfig.{build_configs}
use fikua_lab_issuer.Prelude.{Bool-cases, eq_iff}

-- The two formats that the issuer can issue
unfoldable pub IsKnownFormat : String → Type 0
IsKnownFormat format = (format ≡ format_sd_jwt_vc) ⊎ (format ≡ format_mdoc)

pub listed : String → List String → Bool
listed format [] = false
listed format (f ∷ formats) = let rest = listed format formats in if f == format then true else rest

longer : (s t : String) → count (concat s t) ≡ count s + count t
longer String.[] t = rw (append.nil t) (omega arith)
longer (String.◌∷◌ c s) t =
    rw (append.cons c s t)
      (rw (count.cons c (concat s t)) (rw (count.cons c s) (omega (arith, longer s t))))

suffix_differs : (s : String) → concat s ".mdoc" ≢ s
suffix_differs s h = absurd (omega (arith, longer s ".mdoc", ap count h))

configuration_id_injective :
    (id f g : String)
    → IsKnownFormat f
    → IsKnownFormat g
    → configuration_id id f ≡ configuration_id id g
    → f ≡ g
unfolding IsKnownFormat configuration_id
configuration_id_injective id f g (inl e) (inl e') h = e ∙ sym e'
configuration_id_injective id f g (inr e) (inr e') h = e ∙ sym e'
configuration_id_injective id f g (inl e) (inr e') h =
    absurd
      (suffix_differs id (sym (ap (configuration_id id) e') ∙ sym h ∙ ap (configuration_id id) e))
configuration_id_injective id f g (inr e) (inl e') h =
    absurd (suffix_differs id (sym (ap (configuration_id id) e) ∙ h ∙ ap (configuration_id id) e'))

differ : (f g : String) → (f == g) ≡ false → f ≢ g
differ f g h e = ground (arith, eq_iff f g)

module _ {Key KeySet : Type 0} (p : Platform Key KeySet) where
  expected : Definition → String → Option FormatSchema → Option Config → Option Config
  expected def f none before = before
  expected def f (some schema) before = some (build_config p def f schema)

  add_config_same :
      (def : Definition) (f : String) (o : Option FormatSchema) (out : Dict String Config)
      → get (configuration_id def.scheme.id f) (add_config p def f o out)
        ≡ expected def f o (get (configuration_id def.scheme.id f) out)
  unfolding add_config expected
  add_config_same def f none out = refl
  add_config_same def f (some schema) out = get-put_self _ _ out

  add_config_other :
      (def : Definition) (f g : String) (o : Option FormatSchema) (out : Dict String Config)
      → IsKnownFormat f
      → IsKnownFormat g
      → g ≢ f
      → get (configuration_id def.scheme.id f) (add_config p def g o out)
        ≡ get (configuration_id def.scheme.id f) out
  unfolding add_config
  add_config_other def f g none out k l h = refl
  add_config_other def f g (some schema) out k l h =
      get-put_ne _ _ _ out (λ e. h (configuration_id_injective def.scheme.id g f l k e))

  expected_twice :
      (def : Definition) (f : String) (o : Option FormatSchema) (b : Bool) (before : Option Config)
      → (if b then expected def f o (expected def f o before) else expected def f o before)
        ≡ expected def f o before
  unfolding expected
  expected_twice def f none true before = refl
  expected_twice def f none false before = refl
  expected_twice def f (some schema) true before = refl
  expected_twice def f (some schema) false before = refl

  module _ (def : Definition) (f : String) where
    -- What the loop over formats finds for one of them, from what was there before.
    after : Bool → Option Config → Option Config
    after b before = if b then expected def f (schema_for def.scheme f) before else before

    step_same :
        (g : String) (b : Bool) (out : Dict String Config)
        → (g == f) ≡ true
        → after b (
            get
              (configuration_id def.scheme.id f)
              (add_config p def g (schema_for def.scheme g) out))
          ≡ after (if g == f then true else b) (get (configuration_id def.scheme.id f) out)
    unfolding after
    step_same g b out e = rw e (
        rw ((eq_iff g f).0 e) (
          ap (λ t. if b then expected def f (schema_for def.scheme f) t else t)
            (add_config_same def f (schema_for def.scheme f) out)
          ∙ expected_twice def f (schema_for def.scheme f) b _))

    step_other :
        (g : String) (b : Bool) (out : Dict String Config)
        → IsKnownFormat f
        → IsKnownFormat g
        → (g == f) ≡ false
        → after b (
            get
              (configuration_id def.scheme.id f)
              (add_config p def g (schema_for def.scheme g) out))
          ≡ after (if g == f then true else b) (get (configuration_id def.scheme.id f) out)
    unfolding after
    step_other g b out k l e = rw e (
        ap (λ t. if b then expected def f (schema_for def.scheme f) t else t)
          (add_config_other def f g (schema_for def.scheme g) out k l (differ g f e)))

    get-add_configs :
        (formats : List String) (out : Dict String Config)
        → IsKnownFormat f
        → All IsKnownFormat formats
        → get (configuration_id def.scheme.id f) (add_configs p def formats out)
          ≡ after (listed f formats) (get (configuration_id def.scheme.id f) out)
    unfolding add_configs listed after
    get-add_configs [] out k h = refl
    get-add_configs (g ∷ formats) out k (l, h) =
        get-add_configs formats (add_config p def g (schema_for def.scheme g) out) k h
        ∙ elim (Bool-cases (g == f)) [
          | inl e ↦ step_same g (listed f formats) out e
          | inr e ↦ step_other g (listed f formats) out k l e
        ]

  as_map :
      (def : Definition) (f : String) (b : Bool) (o : Option FormatSchema)
      → (if b then expected def f o none else none)
        ≡ (if b then Option.map (build_config p def f) o else none)
  unfolding expected
  as_map def f true none = refl
  as_map def f true (some schema) = refl
  as_map def f false o = refl

  -- For a scheme that lists known formats only, the configuration under the id of a known format is the
  -- one built from the format's schema, if the format is listed and has a schema; else there is none.
  pub get-build_configs :
      (def : Definition) (f : String)
      → IsKnownFormat f
      → All IsKnownFormat def.scheme.supported_formats
      → get (configuration_id def.scheme.id f) (build_configs p def) ≡ (
          if listed f def.scheme.supported_formats
          then Option.map (build_config p def f) (schema_for def.scheme f)
          else none)
  unfolding build_configs get after
  get-build_configs def f k h =
      get-add_configs def f def.scheme.supported_formats [] k h
      ∙ as_map def f (listed f def.scheme.supported_formats) (schema_for def.scheme f)
