-- ===== src/Issuance/Formats/Readable.antt =====
-- buildSDJWTCredential of internal/issuance/service.go: what a holder reads in the credential.
use mathlib.Core.Path.{subst}
use mathlib.Core.List.{append-nil, append_assoc}
use fikua_lab_issuer.Sdjwt.Builder.{Builder, new_builder}
use fikua_lab_issuer.Issuance.Formats.{
  pid_subject_prefix, pid_vct, sd_jwt_builder, selective_claims, status_claim,
}
use fikua_lab_issuer.Issuance.State.{Setup}
use fikua_lab_issuer.Oauth2.Dpop.{Runtime}
use fikua_lab_issuer.Platform.{Json, Members, Platform, Time, array, members, object, str}
use fikua_lab_issuer.Prelude.{
  List, Option, String, String-eq, [], concat, none, refl, some, ◌++◌, ◌∷◌, ◌≡◌,
}
use fikua_lab_issuer.Prelude.Dict.{Dict, get, get-put}
use fikua_lab_issuer.Prelude.Int.{ℤ, ℤ-eq}
use fikua_lab_issuer.Sdjwt.Builder.{
  default_validity_seconds, items, plain_claim, put_all, put_digests, put_holder, sd_jwt_claims,
  selective_claim,
}
use fikua_lab_issuer.Issuance.Formats.{build_sd_jwt_credential}
use fikua_lab_issuer.Issuance.Record.{Record}
use fikua_lab_issuer.Prelude.{ap, map, sym, ◌∙◌, ◌≢◌}
use fikua_lab_issuer.Result.Exec.{and_then-ok, map_error-ok, ok}
use fikua_lab_issuer.Sdjwt.Builder.{build_sd_jwt}
use fikua_lab_issuer.Sdjwt.Disclosure.{digest_of}
use fikua_lab_issuer.Sdjwt.Presented.{
  AreDisclosuresOf, IsPresented, IsTildeFree, build_sd_jwt-IsPresented,
}
use fikua_lab_issuer.Platform.{member, no_members}
use fikua_lab_issuer.Prelude.Dict.{get-put_self}
use fikua_lab_issuer.Result.Exec.{ok_injective}
use fikua_lab_issuer.Sdjwt.Builder.{holder_jwk, jwk_to_map}
use fikua_lab_issuer.Platform.{Items, bytes, int, item, no_items}

module _ {Key KeySet : Type 0} (p : Platform Key KeySet) where
  -- The claims of the record as they are disclosed: their values as texts.
  pub formatted : Dict String Json → List (String × Json)
  formatted [] = []
  formatted ((name, value) ∷ claims) = (name, str (p.format_value value)) ∷ formatted claims

  -- The SHA-256 digests of encoded disclosures, in base64url.
  pub sha256_items : List String → Items
  sha256_items [] = no_items
  sha256_items (e ∷ es) = item (str (p.base64url (p.sha256 (bytes e)))) (sha256_items es)

  items-digest_of : (es : List String) → items (map (digest_of p) es) ≡ sha256_items es
  unfolding items digest_of sha256_items
  items-digest_of [] = refl
  items-digest_of (e ∷ es) =
      ap (λ t. item (str (p.base64url (p.sha256 (bytes e)))) t) (items-digest_of es)

  -- The members of the JSON of the public key of a key.
  pub record IsPublicJwk (key : Key) (jwk : Members) : Type 0 where
    pub public : Key
    pub text : String
    pub exported : p.public_key key ≡ ok public
    pub marshalled : p.marshal_key public ≡ ok text
    pub unmarshalled : p.unmarshal_json text ≡ ok jwk

  exported_jwk :
      (key : Key) (o : Option Members)
      → holder_jwk p (some key) ≡ ok o
      → (jwk : Members) × IsPublicJwk key jwk × (o ≡ some jwk)
  unfolding holder_jwk jwk_to_map
  exported_jwk key o h =
      let (public, exporting_key, h1) = and_then-ok _ _ o h in
      let (jwk, exporting, h2) = and_then-ok _ _ o h1 in
      let (text, marshalled, unmarshalled) = and_then-ok _ _ jwk (map_error-ok _ _ _ exporting) in
      (
        jwk,
        record {
          public = public;
          text = text;
          exported = map_error-ok _ _ _ exporting_key;
          marshalled = marshalled;
          unmarshalled = unmarshalled;
        },
        sym (ok_injective _ _ h2),
      )

  selective_claims-lem :
      (claims : Dict String Json) (b : Builder Key)
      → selective_claims p claims b
        ≡ record b { selective_claims = b.selective_claims ++ formatted claims }
  unfolding selective_claims selective_claim formatted
  selective_claims-lem [] b =
      ap (λ t. record b { selective_claims = t }) (sym (append-nil b.selective_claims))
  selective_claims-lem ((name, value) ∷ claims) b =
      selective_claims-lem claims (selective_claim name (str (p.format_value value)) b)
      ∙ ap (λ t. record b { selective_claims = t })
          (append_assoc b.selective_claims ((name, str (p.format_value value)) ∷ [])
            (formatted claims))

  module _ (setup : Setup) (rt : Runtime) (wallet_key : Key) (idx : ℤ) (uri : String) where
    pub credential_builder : Members → Builder Key
    credential_builder claims = record {
      vct = pid_vct;
      issuer = setup.base_url;
      subject = concat pid_subject_prefix rt.subject;
      validity_seconds = default_validity_seconds;
      plain_claims =
          ("issuing_authority", str "Fikua Lab")
          ∷ ("issuing_country", str "ES")
          ∷ ("status", object (status_claim idx uri))
          ∷ [];
      selective_claims = formatted (rt.range (members claims));
      holder_key = some wallet_key;
      x5c_chain = setup.issuer_key.x5c_chain;
    }

    sd_jwt_builder-lem :
        (claims : Members)
        → sd_jwt_builder p setup rt wallet_key claims idx uri ≡ credential_builder claims
    unfolding sd_jwt_builder credential_builder plain_claim new_builder
    sd_jwt_builder-lem claims = rw (selective_claims-lem (rt.range (members claims))) refl

    get-sd :
        (claims : Members) (now : Time) (d : String) (ds : List String) (jwk : Option Members)
        → get "_sd" (sd_jwt_claims (credential_builder claims) now (d ∷ ds) jwk)
          ≡ some (array (items (d ∷ ds)))
    unfolding sd_jwt_claims credential_builder put_holder put_all put_digests
    get-sd claims now d ds none = simp (get-put)
    get-sd claims now d ds (some jwk) = simp (get-put)

    present_digests :
        (claims : Members) (encoded : List String) (jwk : Option Members)
        → encoded ≢ []
        → get "_sd"
            (sd_jwt_claims (credential_builder claims) rt.now (map (digest_of p) encoded) jwk)
          ≡ some (array (sha256_items encoded))
    present_digests claims [] jwk h = absurd (h refl)
    present_digests claims (e ∷ es) jwk h =
        get-sd claims rt.now (digest_of p e) (map (digest_of p) es) jwk
        ∙ ap (λ t. some (array t)) (items-digest_of (e ∷ es))

    get-cnf :
        (claims : Members) (now : Time) (ds : List String) (o : Option Members) (jwk : Members)
        → o ≡ some jwk
        → get "cnf" (sd_jwt_claims (credential_builder claims) now ds o)
          ≡ some (object (member "jwk" (object jwk) no_members))
    unfolding sd_jwt_claims put_holder
    get-cnf claims now ds o jwk e = rw e (get-put_self "cnf" _ _)

    get-status :
        (claims : Members) (now : Time) (ds : List String) (jwk : Option Members)
        → get "status" (sd_jwt_claims (credential_builder claims) now ds jwk)
          ≡ some (
              object (
                member "status_list"
                  (object (member "idx" (int idx) (member "uri" (str uri) no_members)))
                  no_members))
    unfolding sd_jwt_claims credential_builder put_holder put_all status_claim
    get-status claims now ds none = simp (get-put)
    get-status claims now ds (some jwk) = simp (get-put)

    -- What stands in a credential: its parts at `~`, the disclosures in them, and the claims signed.
    pub record IsReadable (rec : Record) (built : String) : Type 0 where
      pub claims : Members
      pub decoded : p.unmarshal_json rec.credential_data ≡ ok claims
      pub presented : IsPresented p setup.issuer_key rt.now (credential_builder claims) built
      pub disclosures : AreDisclosuresOf p (formatted (rt.range (members claims))) presented.encoded
      pub signed : Dict String Json
      pub signed_claims : p.build_jwt signed ≡ ok presented.token
      pub digests :
          presented.encoded ≢ [] → get "_sd" signed ≡ some (array (sha256_items presented.encoded))
      pub status :
          get "status" signed
          ≡ some (
              object (
                member "status_list"
                  (object (member "idx" (int idx) (member "uri" (str uri) no_members)))
                  no_members))
      pub wallet_jwk : Members
      pub exported : IsPublicJwk wallet_key wallet_jwk
      pub confirmation :
          get "cnf" signed ≡ some (object (member "jwk" (object wallet_jwk) no_members))

    -- What an SD-JWT credential holds, for a JWS and a base64url alphabet without `~`: cut at each `~`
    -- it is a JWT that is signed by the issuer's key, one encoded disclosure for each claim of the
    -- record, in the order in which the record's claims are ranged over, and an empty text; each
    -- disclosure holds a salt, the claim's name and its value as a text; the `_sd` of the JWT is the
    -- list of the SHA-256 digests of these disclosures in this order, its `status` is the index and the URI
    -- that the credential was given, and its `cnf` holds the JWK that the
    -- JSON of the wallet's public key is read as.
    pub build_sd_jwt_credential-IsReadable :
        IsTildeFree p
        → (rec : Record) (built : String)
        → build_sd_jwt_credential p setup rt wallet_key rec idx uri ≡ ok built
        → IsReadable rec built
    unfolding build_sd_jwt_credential credential_builder
    build_sd_jwt_credential-IsReadable free rec built h =
        let (claims, parsing, h1) = and_then-ok _ _ built h in
        let presented =
          build_sd_jwt-IsPresented p free setup.issuer_key rt.now rt.random
            (credential_builder claims) built
            (subst (λ b. build_sd_jwt p setup.issuer_key rt.now rt.random b ≡ ok built)
              (sd_jwt_builder-lem claims) h1) in
        let (jwk, exported, e) = exported_jwk wallet_key presented.jwk presented.holder in
        record {
          claims = claims;
          decoded = map_error-ok _ _ _ parsing;
          presented = presented;
          disclosures = presented.disclosures;
          signed =
              sd_jwt_claims (credential_builder claims) rt.now (map (digest_of p) presented.encoded)
                presented.jwk;
          signed_claims = presented.claims;
          digests = present_digests claims presented.encoded presented.jwk;
          status = get-status claims rt.now (map (digest_of p) presented.encoded) presented.jwk;
          wallet_jwk = jwk;
          exported = exported;
          confirmation =
              get-cnf claims rt.now (map (digest_of p) presented.encoded) presented.jwk jwk e;
        }
