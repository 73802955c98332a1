-- ===== src/Issuance/Formats.antt =====
-- internal/issuance/service.go: the credentials in their two formats.
pub mod Readable
pub mod Signed
use fikua_lab_issuer.Mdoc
use fikua_lab_issuer.Mdoc.Builder
use fikua_lab_issuer.Mdoc.Builder.{add_element, add_map_element, build_base64url}
use fikua_lab_issuer.Sdjwt.Builder.{
  Builder, build_sd_jwt, new_builder, plain_claim, selective_claim,
}
use fikua_lab_issuer.Issuance.Record.{Record}
use fikua_lab_issuer.Issuance.State.{Setup}
use fikua_lab_issuer.Oauth2.Dpop.{Runtime}
use fikua_lab_issuer.Platform.{
  Json, Members, Platform, int, member, members, no_members, object, str,
}
use fikua_lab_issuer.Prelude.{String, String-eq, [], concat, some, ◌∷◌}
use fikua_lab_issuer.Prelude.Dict.{Dict}
use fikua_lab_issuer.Prelude.Int.{ℤ, ℤ-eq}
use fikua_lab_issuer.Result.Exec.{Result, and_then, map_error}
use fikua_lab_issuer.Statuslist.Token.{prefixed}

abbrev pub pid_vct : String
pid_vct = "urn:eudi:pid:1"

abbrev pub pid_doc_type : String
pid_doc_type = "eu.europa.ec.eudi.pid.1"

abbrev pub pid_subject_prefix : String
pid_subject_prefix = "urn:fikua:pid:"

-- {status_list: {idx, uri}}
unfoldable pub status_claim : ℤ → String → Members
status_claim idx uri =
    member "status_list" (object (member "idx" (int idx) (member "uri" (str uri) no_members)))
      no_members

module _ {Key KeySet : Type 0} (p : Platform Key KeySet) where
  unfoldable pub selective_claims : Dict String Json → Builder Key → Builder Key
  selective_claims [] b = b
  selective_claims ((name, value) ∷ claims) b =
      selective_claims claims (selective_claim name (str (p.format_value value)) b)

  unfoldable pub text_elements :
      Dict String Json → Mdoc.Builder.Builder Key → Mdoc.Builder.Builder Key
  text_elements [] b = b
  text_elements ((name, value) ∷ claims) b =
      text_elements claims (add_element name (p.format_value value) b)

  unfoldable pub sd_jwt_builder : Setup → Runtime → Key → Members → ℤ → String → Builder Key
  unfolding selective_claims
  sd_jwt_builder setup rt wallet_key claims idx uri =
      plain_claim "status" (object (status_claim idx uri)) (
        plain_claim "issuing_country" (str "ES") (
          plain_claim "issuing_authority" (str "Fikua Lab") (
            selective_claims (rt.range (members claims)) (record new_builder {
              vct = pid_vct;
              issuer = setup.base_url;
              subject = concat pid_subject_prefix rt.subject;
              holder_key = some wallet_key;
              x5c_chain = setup.issuer_key.x5c_chain;
            }))))

  unfoldable pub parsed : String → Result Members
  parsed credential_data =
      map_error (prefixed "parsing credential_data: ") (p.unmarshal_json credential_data)

  unfoldable pub build_sd_jwt_credential :
      Setup → Runtime → Key → Record → ℤ → String → Result String
  unfolding sd_jwt_builder parsed
  build_sd_jwt_credential setup rt wallet_key rec idx uri =
      and_then (parsed rec.credential_data) λ claims.
        build_sd_jwt p setup.issuer_key rt.now rt.random
          (sd_jwt_builder setup rt wallet_key claims idx uri)

  unfoldable pub mdoc_builder :
      Setup → Runtime → Key → Members → ℤ → String → Mdoc.Builder.Builder Key
  unfolding text_elements
  mdoc_builder setup rt wallet_key claims idx uri =
      add_map_element "status" (status_claim idx uri) (
        add_element "issuing_country" "ES" (
          add_element "issuing_authority" "Fikua Lab" (
            text_elements (rt.range (members claims)) (record Mdoc.Builder.new_builder {
              doc_type = pid_doc_type;
              namespace = pid_doc_type;
              device_key = some wallet_key;
              x5c_chain = setup.issuer_key.x5c_chain;
            }))))

  unfoldable pub build_mdoc_credential : Setup → Runtime → Key → Record → ℤ → String → Result String
  unfolding mdoc_builder parsed
  build_mdoc_credential setup rt wallet_key rec idx uri =
      and_then (parsed rec.credential_data) λ claims.
        build_base64url p rt.now rt.random (mdoc_builder setup rt wallet_key claims idx uri)
