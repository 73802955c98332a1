-- ===== src/Mdoc/Layout.antt =====
-- What the encoded structures of internal/mdoc hold, written out as in ISO/IEC 18013-5.
use mathlib.Core.Path.{ap₂}
use fikua_lab_issuer.Mdoc.Builder.{Builder}
use fikua_lab_issuer.Mdoc.Builder.{
  CoseKey, build_validity_info, cose_key_struct, device_key_field, device_key_from_jwk,
  device_key_info, digest_map, issuer_signed, mso_of, mso_struct, namespaces_map,
  tagged_items_as_raw, tdate,
}
use fikua_lab_issuer.Mdoc.Cose.{x5chain_header}
use fikua_lab_issuer.Mdoc.Item.{
  Element, ElementKind, cbor_value, element_full_date, element_map, element_text,
  issuer_signed_item, named, value_of_kind,
}
use fikua_lab_issuer.Platform.{
  Cbor, Elements, Pairs, Platform, Time, any_value, byte_string, entry, integer, map_of, member_of,
  no_elements, no_pairs, object, raw_message, sequence, struct_of, tagged, text_string,
}
use fikua_lab_issuer.Prelude.{
  List, Option, String, String-eq, [], ap, none, refl, some, sym, ℕ, ◌∙◌, ◌∷◌, ◌≡◌,
}
use fikua_lab_issuer.Prelude.Dict.{Dict}
use fikua_lab_issuer.Prelude.Int.{negsuc, pos}
use fikua_lab_issuer.Result.Exec.{and_then-ok, from_option-ok, ok, ok_injective}
use fikua_lab_issuer.Mdoc.Cose.{cose_sign1, elements_of, sig_structure}

-- The value of an element: a full-date, a map, or a text.
pub element_value : ElementKind → Element → Cbor
element_value element_full_date e = tagged 1004 (text_string e.value)
element_value element_map e = any_value (object e.map_value)
element_value element_text e = text_string e.value

-- An item: its digest id, its salt, and the name and the value of its element.
pub item_layout : ℕ → List ℕ → Element → Cbor
item_layout i random elem = struct_of (
    entry (text_string "digestID") (integer (pos i)) (
      entry (text_string "random") (byte_string random) (
        entry (text_string "elementIdentifier") (text_string elem.identifier)
          (entry (text_string "elementValue") (element_value elem.kind elem) no_pairs))))

element_value-lem : (k : ElementKind) (e : Element) → value_of_kind k e ≡ element_value k e
unfolding value_of_kind element_value
element_value-lem element_full_date e = refl
element_value-lem element_map e = refl
element_value-lem element_text e = refl

pub issuer_signed_item-lem :
    (i : ℕ) (random : List ℕ) (elem : Element)
    → issuer_signed_item i random elem ≡ item_layout i random elem
unfolding issuer_signed_item named cbor_value item_layout
issuer_signed_item-lem i random elem = rw (element_value-lem elem.kind elem) refl

-- A public key as a COSE_Key: kty 2 (EC2), crv 1 (P-256), and its coordinates.
pub cose_key_layout : List ℕ → List ℕ → Cbor
cose_key_layout x y = struct_of (
    entry (integer (pos 1)) (integer (pos 2)) (
      entry (integer (negsuc 0)) (integer (pos 1)) (
        entry (integer (negsuc 1)) (byte_string x)
          (entry (integer (negsuc 2)) (byte_string y) no_pairs))))

-- The fields of a security object from the device's key on, if there is one.
pub with_device : Option (List ℕ × List ℕ) → Pairs → Pairs
with_device none rest = rest
with_device (some (x, y)) rest =
    entry (text_string "deviceKeyInfo")
      (struct_of (entry (text_string "deviceKey") (cose_key_layout x y) no_pairs)) rest

-- The tagged items as they are.
pub raw_items : List (List ℕ) → Elements
raw_items [] = no_elements
raw_items (t ∷ ts) = member_of (raw_message t) (raw_items ts)

-- The issuer-signed structure: the signature, and the items of one namespace.
pub issuer_signed_layout : List ℕ → String → List (List ℕ) → Cbor
issuer_signed_layout issuer_auth namespace tagged_items = struct_of (
    entry (text_string "issuerAuth") (raw_message issuer_auth) (
      entry (text_string "nameSpaces")
        (map_of (entry (text_string namespace) (sequence (raw_items tagged_items)) no_pairs))
        no_pairs))

raw_items-lem : (ts : List (List ℕ)) → tagged_items_as_raw ts ≡ raw_items ts
unfolding tagged_items_as_raw raw_items
raw_items-lem [] = refl
raw_items-lem (t ∷ ts) = ap (member_of (raw_message t)) (raw_items-lem ts)

pub issuer_signed-lem :
    (issuer_auth : List ℕ) (namespace : String) (ts : List (List ℕ))
    → issuer_signed issuer_auth namespace ts ≡ issuer_signed_layout issuer_auth namespace ts
unfolding issuer_signed issuer_signed_layout named
issuer_signed-lem issuer_auth namespace ts = rw (raw_items-lem ts) refl

-- Sig_structure of RFC 9052: what is signed for a protected header and a payload.
pub to_be_signed_layout : List ℕ → List ℕ → Cbor
to_be_signed_layout protected payload = sequence (
    member_of (text_string "Signature1") (
      member_of (byte_string protected)
        (member_of (byte_string []) (member_of (byte_string payload) no_elements))))

-- COSE_Sign1, with the certificates in its unprotected header.
pub signed_layout : List ℕ → List (List ℕ) → List ℕ → List ℕ → Cbor
signed_layout protected chain payload signature = sequence (
    member_of (byte_string protected) (
      member_of (map_of (x5chain_header chain))
        (member_of (byte_string payload) (member_of (byte_string signature) no_elements))))

-- Each digest under its digest id.
pub digest_pairs : Dict ℕ (List ℕ) → Pairs
digest_pairs [] = no_pairs
digest_pairs ((i, d) ∷ digests) = entry (integer (pos i)) (byte_string d) (digest_pairs digests)

digest_map-lem : (digests : Dict ℕ (List ℕ)) → digest_map digests ≡ digest_pairs digests
unfolding digest_map digest_pairs
digest_map-lem [] = refl
digest_map-lem ((i, d) ∷ digests) =
    ap (entry (integer (pos i)) (byte_string d)) (digest_map-lem digests)

module _ {Key KeySet : Type 0} (p : Platform Key KeySet) where
  -- The mobile security object: the digests of the items of one namespace, the device's key, and the
  -- days of its validity.
  pub security_object : Time → Builder Key → Dict ℕ (List ℕ) → Option (List ℕ × List ℕ) → Cbor
  security_object now b digests device = struct_of (
      entry (text_string "version") (text_string "1.0") (
        entry (text_string "digestAlgorithm") (text_string "SHA-256") (
          entry (text_string "valueDigests")
            (map_of (entry (text_string b.namespace) (map_of (digest_pairs digests)) no_pairs))
            (with_device device (
              entry (text_string "docType") (text_string b.doc_type) (
                entry (text_string "validityInfo")
                  (struct_of (
                    entry (text_string "signed") (tagged 0 (text_string (p.format_tdate now))) (
                      entry (text_string "validFrom") (tagged 0 (text_string (p.format_tdate now)))
                        (entry (text_string "validUntil")
                          (tagged 0 (text_string (p.format_tdate (p.add_days b.validity_days now))))
                          no_pairs))))
                  no_pairs))))))

  pub sig_structure-lem :
      (protected payload : List ℕ)
      → sig_structure p protected payload ≡ to_be_signed_layout protected payload
  unfolding sig_structure elements_of to_be_signed_layout
  sig_structure-lem protected payload = refl

  pub cose_sign1-lem :
      (protected : List ℕ) (chain : List (List ℕ)) (payload signature : List ℕ)
      → cose_sign1 p protected chain payload signature
        ≡ signed_layout protected chain payload signature
  unfolding cose_sign1 elements_of signed_layout
  cose_sign1-lem protected chain payload signature = refl

  -- The coordinates of the device's key, if there is one.
  pub IsDeviceKey : Option Key → Option (List ℕ × List ℕ) → Type 0
  IsDeviceKey none device = device ≡ none
  IsDeviceKey (some key) device =
      (x y : List ℕ) × (p.ec_point key ≡ some (some x, some y)) × (device ≡ some (x, y))

  pub of_point : Option (List ℕ × List ℕ) → Option CoseKey
  of_point none = none
  of_point (some (x, y)) = some (record { kty = 2; crv = 1; x = x; y = y })

  pub device_key_info-IsDeviceKey :
      (o : Option Key) (device_key : Option CoseKey)
      → device_key_info p o ≡ ok device_key
      → (device : Option (List ℕ × List ℕ)) × IsDeviceKey o device × (device_key ≡ of_point device)
  unfolding device_key_info device_key_from_jwk IsDeviceKey of_point
  device_key_info-IsDeviceKey none device_key h = (none, refl, sym (ok_injective _ _ h))
  device_key_info-IsDeviceKey (some key) device_key h =
      let (k, made, h1) = and_then-ok _ _ device_key h in
      let ((x', y'), found, h2) = and_then-ok _ _ k made in
      let (x, first, h3) = and_then-ok _ _ k h2 in
      let (y, second, h4) = and_then-ok _ _ k h3 in
      let point : some (x', y') ≡ some (some x, some y) =
        ap₂ (λ s t. some (s, t)) (from_option-ok _ _ _ first) (from_option-ok _ _ _ second) in
      (
        some (x, y),
        (x, y, from_option-ok _ _ _ found ∙ point, refl),
        sym (ok_injective _ _ h1) ∙ ap some (sym (ok_injective _ _ h4)),
      )

  pub mso_struct-lem :
      (now : Time) (b : Builder Key) (digests : Dict ℕ (List ℕ)) (device : Option (List ℕ × List ℕ))
      → mso_struct (mso_of p b now digests (of_point device)) ≡ security_object now b digests device
  unfolding mso_struct mso_of namespaces_map device_key_field named cose_key_struct
      build_validity_info tdate security_object with_device of_point cose_key_layout
  mso_struct-lem now b digests none = rw (digest_map-lem digests) refl
  mso_struct-lem now b digests (some (x, y)) = rw (digest_map-lem digests) refl
