-- ===== src/Tests/Credentials.antt =====
-- The theorems about the two credential formats, at concrete inputs.
use fikua_lab_issuer.Sdjwt.Builder.{new_builder}
use fikua_lab_issuer.Mdoc.Builder.{new_builder as new_mdoc_builder}
use fikua_lab_issuer.Issuance.Formats.Readable.{IsReadable, build_sd_jwt_credential-IsReadable}
use fikua_lab_issuer.Issuance.Formats.Signed.{
  IsMdocCredential, build_mdoc_credential-IsMdocCredential,
}
use fikua_lab_issuer.Mdoc.Signature.{from_big_endian, sign_raw_p1363_readable}
use fikua_lab_issuer.Sdjwt.Presented.{IsTildeFree, tilde}
use fikua_lab_issuer.Issuance.Formats.{build_mdoc_credential, build_sd_jwt_credential}
use fikua_lab_issuer.Mdoc.Cose.{sign_raw_p1363}
use fikua_lab_issuer.Platform.{SetHeaders}
use fikua_lab_issuer.Prelude.{
  List, String, String-eq, [], arith, drop, length, refl, sym, take, true, ℕ, ◌∷◌, ◌≡◌,
}
use fikua_lab_issuer.Prelude.Int.{pos}
use fikua_lab_issuer.Prelude.Texts.{lacks}
use fikua_lab_issuer.Result.Exec.{ok, ok_injective}
use fikua_lab_issuer.Tests.StatusLists.{issued_record}
use fikua_lab_issuer.Tests.World.{runtime, setup, world}
use fikua_lab_issuer.Mdoc.Builder.{add_element, add_map_element, build_base64url}
use fikua_lab_issuer.Mdoc.Cose.{fill_bytes, sign_cose_sign1}
use fikua_lab_issuer.Mdoc.Item.{add_item, build_namespace_items}
use fikua_lab_issuer.Platform.{bytes, members}
use fikua_lab_issuer.Result.Exec.{and_then, from_option, map_error}
use fikua_lab_issuer.Sdjwt.Builder.{build_sd_jwt, disclosed, plain_claim, selective_claim}
use fikua_lab_issuer.Sdjwt.Disclosure.{new_disclosure}
use fikua_lab_issuer.Statuslist.Token.{build_x5c_chain}

digest_lacks : (bs : List ℕ) → lacks tilde (world.base64url bs) ≡ true
unfolding lacks
digest_lacks [] = refl
digest_lacks (b ∷ bs) = refl

signed_lacks : (h : SetHeaders) (t s : String) → world.sign_jwt h t ≡ ok s → lacks tilde s ≡ true
unfolding lacks
signed_lacks h t s e = rw (sym (ok_injective _ _ e)) refl

pub world-IsTildeFree : IsTildeFree world
world-IsTildeFree = record { base64url_lacks = digest_lacks; jws_lacks = signed_lacks }

sd_jwt_run :
    build_sd_jwt_credential world setup runtime 9 issued_record (pos 0) "https://issuer/list"
    ≡ ok "signed~digest~"
unfolding build_sd_jwt_credential and_then map_error build_sd_jwt plain_claim members
    selective_claim new_builder new_disclosure build_x5c_chain disclosed bytes
sd_jwt_run = refl

build_sd_jwt_credential-IsReadable_example :
    IsReadable world setup runtime 9 (pos 0) "https://issuer/list" issued_record "signed~digest~"
build_sd_jwt_credential-IsReadable_example =
    build_sd_jwt_credential-IsReadable world setup runtime 9 (pos 0) "https://issuer/list"
      world-IsTildeFree issued_record "signed~digest~" sd_jwt_run

mdoc_run :
    build_mdoc_credential world setup runtime 9 issued_record (pos 0) "https://issuer/list"
    ≡ ok "digest"
unfolding build_mdoc_credential and_then map_error build_base64url build_namespace_items
    add_map_element add_element members new_mdoc_builder add_item from_option sign_cose_sign1
    fill_bytes
mdoc_run = refl

build_mdoc_credential-IsMdocCredential_example :
    IsMdocCredential world setup runtime 9 (pos 0) "https://issuer/list" issued_record "digest"
build_mdoc_credential-IsMdocCredential_example =
    build_mdoc_credential-IsMdocCredential world setup runtime 9 (pos 0) "https://issuer/list"
      issued_record "digest" mdoc_run

sign_raw_p1363_readable_example :
    (out : List ℕ) × (sign_raw_p1363 world (1 ∷ []) ≡ ok out)
    × (length out ≡ 64)
    × (from_big_endian 0 (take 32 out) ≡ 258)
    × (from_big_endian 0 (drop 32 out) ≡ 7)
sign_raw_p1363_readable_example =
    sign_raw_p1363_readable world (1 ∷ []) (2 ∷ []) 258 7 refl refl (omega arith) (omega arith)
