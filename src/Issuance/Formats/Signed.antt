-- ===== src/Issuance/Formats/Signed.antt =====
-- buildMdocCredential of internal/issuance/service.go: what a verifier finds in the credential.
use mathlib.Core.Path.{subst}
use mathlib.Core.List.{append-nil, append_assoc}
use fikua_lab_issuer.Mdoc.Builder.{Builder, new_builder}
use fikua_lab_issuer.Issuance.Formats.{
  build_mdoc_credential, mdoc_builder, pid_doc_type, status_claim, text_elements,
}
use fikua_lab_issuer.Issuance.Record.{Record}
use fikua_lab_issuer.Issuance.State.{Setup}
use fikua_lab_issuer.Mdoc.Builder.{
  add_element, add_map_element, build_base64url, build_mdoc, default_validity_days,
}
use fikua_lab_issuer.Mdoc.Item.{
  Element, is_full_date, map_element, new_element, resolve_element_kind, text_element,
}
use fikua_lab_issuer.Mdoc.Signed.{IsIssuerSigned, build_mdoc-IsIssuerSigned}
use fikua_lab_issuer.Oauth2.Dpop.{Runtime}
use fikua_lab_issuer.Platform.{Json, Members, Platform, members}
use fikua_lab_issuer.Prelude.{
  refl, List, String, String-eq, [], ap, some, sym, ℕ, ◌++◌, ◌∙◌, ◌∷◌, ◌≡◌,
}
use fikua_lab_issuer.Prelude.Dict.{Dict}
use fikua_lab_issuer.Prelude.Int.{ℤ, ℤ-eq}
use fikua_lab_issuer.Result.Exec.{and_then-ok, map_error-ok, ok, ok_injective}
use fikua_lab_issuer.Prelude.{refl}
use fikua_lab_issuer.Mdoc.Item.{element_full_date, element_map, element_text, full_date_element}
use fikua_lab_issuer.Platform.{int, member, no_members, object, str}
use fikua_lab_issuer.Prelude.{Bool-cases, if◌then◌else◌, inl, inr, ◌==◌}

append_three :
    (xs : List Element) (a b c : Element)
    → (((xs ++ a ∷ []) ++ b ∷ []) ++ c ∷ []) ≡ xs ++ a ∷ b ∷ c ∷ []
append_three [] a b c = refl
append_three (x ∷ xs) a b c = ap (λ t. x ∷ t) (append_three xs a b c)

-- A claim as an element: `birth_date` is a full-date, any other is a text.
pub claim_element : String → String → Element
claim_element name value = record {
  identifier = name;
  value = value;
  map_value = no_members;
  kind = if name == "birth_date" then element_full_date else element_text;
}

-- The entry of the status list, as a map.
pub status_element : ℤ → String → Element
status_element idx uri = record {
  identifier = "status";
  value = "";
  map_value =
      member "status_list" (object (member "idx" (int idx) (member "uri" (str uri) no_members)))
        no_members;
  kind = element_map;
}

new_element-lem : (name value : String) → new_element name value ≡ claim_element name value
unfolding new_element resolve_element_kind is_full_date full_date_element text_element claim_element
new_element-lem name value = elim (Bool-cases (name == "birth_date")) [
  | inl e ↦ rw e refl
  | inr e ↦ rw e refl
]

module _ {Key KeySet : Type 0} (p : Platform Key KeySet) where
  -- The record's claims as elements.
  pub elements_of_claims : Dict String Json → List Element
  elements_of_claims [] = []
  elements_of_claims ((name, value) ∷ claims) =
      claim_element name (p.format_value value) ∷ elements_of_claims claims

  text_elements-lem :
      (claims : Dict String Json) (b : Builder Key)
      → text_elements p claims b ≡ record b { elements = b.elements ++ elements_of_claims claims }
  unfolding text_elements add_element elements_of_claims
  text_elements-lem [] b = ap (λ t. record b { elements = t }) (sym (append-nil b.elements))
  text_elements-lem ((name, value) ∷ claims) b =
      text_elements-lem claims (add_element name (p.format_value value) b)
      ∙ ap (λ t. record b { elements = t })
          (append_assoc b.elements (new_element name (p.format_value value) ∷ [])
              (elements_of_claims claims)
            ∙ ap (λ e. b.elements ++ e ∷ elements_of_claims claims)
                (new_element-lem name (p.format_value value)))

  module _ (setup : Setup) (rt : Runtime) (wallet_key : Key) (idx : ℤ) (uri : String) where
    pub credential_mdoc : Members → Builder Key
    credential_mdoc claims = record {
      doc_type = pid_doc_type;
      namespace = pid_doc_type;
      elements =
          elements_of_claims (rt.range (members claims))
          ++ claim_element "issuing_authority" "Fikua Lab"
            ∷ claim_element "issuing_country" "ES"
            ∷ status_element idx uri
            ∷ [];
      device_key = some wallet_key;
      x5c_chain = setup.issuer_key.x5c_chain;
      validity_days = default_validity_days;
    }

    mdoc_builder-lem :
        (claims : Members)
        → mdoc_builder p setup rt wallet_key claims idx uri ≡ credential_mdoc claims
    unfolding mdoc_builder credential_mdoc add_element add_map_element new_builder new_element
        resolve_element_kind is_full_date text_element full_date_element map_element claim_element
        status_element status_claim
    mdoc_builder-lem claims = rw (text_elements-lem (rt.range (members claims))) (
        ap (λ t. record (credential_mdoc claims) { elements = t })
          (append_three (elements_of_claims (rt.range (members claims)))
            (claim_element "issuing_authority" "Fikua Lab") (claim_element "issuing_country" "ES")
            (status_element idx uri)))

    pub record IsMdocCredential (rec : Record) (text : String) : Type 0 where
      pub claims : Members
      pub out : List ℕ
      pub decoded : p.unmarshal_json rec.credential_data ≡ ok claims
      pub encoded : text ≡ p.base64url out
      pub issuer_signed : IsIssuerSigned p rt.now (credential_mdoc claims) out

    -- What an mdoc credential holds: it is the base64url of a structure with one tagged item for each
    -- claim of the record, in the order in which the record's claims are ranged over, and for the
    -- authority, the country and the status; the item at each place has that place as its digest id,
    -- and its element's name and value, a full-date for `birth_date`; the digests that the security
    -- object lists are those of the items and no others; the security object also holds the wallet's
    -- key; and its encoding is the payload of a COSE signature, whose 64 bytes are the two numbers that
    -- the issuer's signer made over the Sig_structure of the header for ES256 and this payload.
    pub build_mdoc_credential-IsMdocCredential :
        (rec : Record) (text : String)
        → build_mdoc_credential p setup rt wallet_key rec idx uri ≡ ok text
        → IsMdocCredential rec text
    unfolding build_mdoc_credential build_base64url
    build_mdoc_credential-IsMdocCredential rec text h =
        let (claims, parsing, h1) = and_then-ok _ _ text h in
        let (out, built, encoding) = and_then-ok _ _ text h1 in
        record {
          claims = claims;
          out = out;
          decoded = map_error-ok _ _ _ parsing;
          encoded = sym (ok_injective _ _ encoding);
          issuer_signed =
              build_mdoc-IsIssuerSigned p rt.now rt.random (credential_mdoc claims) out (
                subst (λ b. build_mdoc p rt.now rt.random b ≡ ok out) (mdoc_builder-lem claims)
                  built);
        }
