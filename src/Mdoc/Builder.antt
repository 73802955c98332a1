-- ===== src/Mdoc/Builder.antt =====
-- internal/mdoc/mso.go and builder.go: the security object and the issuer-signed structure.
use fikua_lab_issuer.Mdoc.Cose.{sign_cose_sign1}
use fikua_lab_issuer.Mdoc.Item.{Element, build_namespace_items, map_element, named, new_element}
use fikua_lab_issuer.Platform.{
  Cbor, Elements, Members, Pairs, Platform, Time, byte_string, bytes, entry, integer, map_of,
  member_of, no_elements, no_pairs, raw_message, sequence, struct_of, tagged, text_string,
}
use fikua_lab_issuer.Prelude.{List, Option, String, String-eq, [], concat, none, some, ℕ, ◌++◌, ◌∷◌}
use fikua_lab_issuer.Prelude.Dict.{Dict}
use fikua_lab_issuer.Prelude.Int.{negsuc, pos}
use fikua_lab_issuer.Result.Exec.{Result, and_then, from_option, ok, plain}

abbrev pub default_validity_days : ℕ
default_validity_days = 365

-- `issuerKey` is behind `Platform.sign_hash`.
pub record Builder (Key : Type 0) : Type 0 where
  pub doc_type : String
  pub namespace : String
  pub elements : List Element
  pub device_key : Option Key
  pub x5c_chain : List (List ℕ)
  pub validity_days : ℕ

unfoldable pub new_builder : {Key : Type 0} → Builder Key
new_builder = record {
  doc_type = "";
  namespace = "";
  elements = [];
  device_key = none;
  x5c_chain = [];
  validity_days = default_validity_days;
}

unfoldable pub add_element : {Key : Type 0} → String → String → Builder Key → Builder Key
add_element identifier value b = record b {
  elements = b.elements ++ new_element identifier value ∷ [];
}

unfoldable pub add_map_element : {Key : Type 0} → String → Members → Builder Key → Builder Key
add_map_element identifier value b = record b {
  elements = b.elements ++ map_element identifier value ∷ [];
}

pub record CoseKey : Type 0 where
  pub kty : ℕ
  pub crv : ℕ
  pub x : List ℕ
  pub y : List ℕ

abbrev pub cose_key_type_ec2 : ℕ
cose_key_type_ec2 = 2

abbrev pub cose_curve_p256 : ℕ
cose_curve_p256 = 1

-- The struct with its integer keys
unfoldable pub cose_key_struct : CoseKey → Cbor
cose_key_struct k = struct_of (
    entry (integer (pos 1)) (integer (pos k.kty)) (
      entry (integer (negsuc 0)) (integer (pos k.crv)) (
        entry (integer (negsuc 1)) (byte_string k.x)
          (entry (integer (negsuc 2)) (byte_string k.y) no_pairs))))

-- map[int][]byte
unfoldable pub digest_map : Dict ℕ (List ℕ) → Pairs
digest_map [] = no_pairs
digest_map ((i, bytes) ∷ rest) = entry (integer (pos i)) (byte_string bytes) (digest_map rest)

pub record MobileSecurityObject : Type 0 where
  pub version : String
  pub digest_algorithm : String
  pub value_digests : Dict String (Dict ℕ (List ℕ))
  pub device_key_info : Option CoseKey
  pub doc_type : String
  pub validity_info : List (String × Cbor)

unfoldable pub namespaces_map : Dict String (Dict ℕ (List ℕ)) → List (String × Cbor)
unfolding digest_map
namespaces_map [] = []
namespaces_map ((name, digests) ∷ rest) = (name, map_of (digest_map digests)) ∷ namespaces_map rest

-- `omitempty`
unfoldable pub device_key_field : Option CoseKey → List (String × Cbor)
unfolding cose_key_struct
device_key_field none = []
device_key_field (some k) =
    ("deviceKeyInfo", struct_of (named (("deviceKey", cose_key_struct k) ∷ []))) ∷ []

unfoldable pub mso_struct : MobileSecurityObject → Cbor
unfolding namespaces_map device_key_field
mso_struct mso = struct_of (
    named (
      ("version", text_string mso.version)
      ∷ ("digestAlgorithm", text_string mso.digest_algorithm)
      ∷ ("valueDigests", map_of (named (namespaces_map mso.value_digests)))
      ∷ (device_key_field mso.device_key_info
          ++ ("docType", text_string mso.doc_type)
            ∷ ("validityInfo", struct_of (named mso.validity_info))
            ∷ [])))

-- []cbor.RawMessage
unfoldable pub tagged_items_as_raw : List (List ℕ) → Elements
tagged_items_as_raw [] = no_elements
tagged_items_as_raw (i ∷ is) = member_of (raw_message i) (tagged_items_as_raw is)

unfoldable pub issuer_signed : List ℕ → String → List (List ℕ) → Cbor
unfolding tagged_items_as_raw
issuer_signed issuer_auth namespace tagged_items = struct_of (
    named (
      ("issuerAuth", raw_message issuer_auth)
      ∷ (
        "nameSpaces",
        map_of (named ((namespace, sequence (tagged_items_as_raw tagged_items)) ∷ [])),
      )
      ∷ []))

module _ {Key KeySet : Type 0} (p : Platform Key KeySet) where
  unfoldable pub tdate : Time → Cbor
  tdate t = tagged 0 (text_string (p.format_tdate t))

  unfoldable pub build_validity_info : Time → ℕ → List (String × Cbor)
  unfolding tdate
  build_validity_info now days =
      ("signed", tdate now)
      ∷ ("validFrom", tdate now)
      ∷ ("validUntil", tdate (p.add_days days now))
      ∷ []

  unfoldable pub device_key_from_jwk : Key → Result CoseKey
  device_key_from_jwk key =
      and_then
        (from_option (p.ec_point key) (
          plain
            (concat "mdoc: device key is not an EC public key (" (concat (p.type_name key) ")"))))
        λ (x', y'). and_then (from_option x' (plain "mdoc: device key missing x coordinate")) λ x.
          and_then (from_option y' (plain "mdoc: device key missing y coordinate"))
            λ y. ok (record { kty = cose_key_type_ec2; crv = cose_curve_p256; x = x; y = y })

  -- `if b.deviceKey != nil`
  unfoldable pub device_key_info : Option Key → Result (Option CoseKey)
  unfolding device_key_from_jwk
  device_key_info none = ok none
  device_key_info (some key) = and_then (device_key_from_jwk key) λ k. ok (some k)

  unfoldable pub mso_of :
      Builder Key → Time → Dict ℕ (List ℕ) → Option CoseKey → MobileSecurityObject
  unfolding build_validity_info
  mso_of b now digests device_key = record {
    version = "1.0";
    digest_algorithm = "SHA-256";
    value_digests = (b.namespace, digests) ∷ [];
    device_key_info = device_key;
    doc_type = b.doc_type;
    validity_info = build_validity_info now b.validity_days;
  }

  unfoldable pub build_mdoc : Time → (ℕ → Result (List ℕ)) → Builder Key → Result (List ℕ)
  unfolding device_key_info mso_of
  build_mdoc now random b = and_then (build_namespace_items p random b.elements) λ nd.
      and_then (device_key_info b.device_key) λ device_key.
        and_then (p.marshal_cbor (mso_struct (mso_of b now nd.digests device_key))) λ mso_bytes.
          and_then (p.marshal_cbor (tagged 24 (byte_string mso_bytes))) λ mso_payload.
            and_then (sign_cose_sign1 p mso_payload b.x5c_chain)
              λ issuer_auth. p.marshal_cbor (issuer_signed issuer_auth b.namespace nd.tagged_items)

  unfoldable pub build_base64url : Time → (ℕ → Result (List ℕ)) → Builder Key → Result String
  unfolding build_mdoc
  build_base64url now random b = and_then (build_mdoc now random b) λ bytes. ok (p.base64url bytes)
