-- ===== src/Mdoc/Item.antt =====
-- internal/mdoc/element.go and item.go: the elements of a credential and their digests.
use fikua_lab_issuer.Prelude.{Nat-eq}
use fikua_lab_issuer.Platform.{
  Cbor, Members, Pairs, Platform, any_value, byte_string, entry, integer, no_members, no_pairs,
  object, struct_of, tagged, text_string,
}
use fikua_lab_issuer.Prelude.{
  Bool, List, String, String-eq, [], false, if◌then◌else◌, suc, true, ℕ, ◌++◌, ◌==◌, ◌∷◌,
}
use fikua_lab_issuer.Prelude.Dict.{Dict, put}
use fikua_lab_issuer.Prelude.Int.{pos}
use fikua_lab_issuer.Result.Exec.{Result, and_then, ok}

pub data ElementKind : Type 0 where
  element_text : ElementKind
  element_full_date : ElementKind
  element_map : ElementKind

pub record Element : Type 0 where
  pub identifier : String
  pub value : String
  pub map_value : Members
  pub kind : ElementKind

unfoldable pub text_element : String → String → Element
text_element identifier value = record {
  identifier = identifier;
  value = value;
  map_value = no_members;
  kind = element_text;
}

unfoldable pub full_date_element : String → String → Element
full_date_element identifier value = record {
  identifier = identifier;
  value = value;
  map_value = no_members;
  kind = element_full_date;
}

unfoldable pub map_element : String → Members → Element
map_element identifier value = record {
  identifier = identifier;
  value = "";
  map_value = value;
  kind = element_map;
}

abbrev pub birth_date_identifier : String
birth_date_identifier = "birth_date"

unfoldable pub resolve_element_kind : String → ElementKind
resolve_element_kind identifier =
    if identifier == birth_date_identifier then element_full_date else element_text

unfoldable pub is_full_date : ElementKind → Bool
is_full_date element_full_date = true
is_full_date _ = false

unfoldable pub new_element : String → String → Element
unfolding resolve_element_kind is_full_date full_date_element text_element
new_element identifier value =
    if is_full_date (resolve_element_kind identifier)
    then full_date_element identifier value
    else text_element identifier value

unfoldable pub value_of_kind : ElementKind → Element → Cbor
value_of_kind element_full_date e = tagged 1004 (text_string e.value)
value_of_kind element_map e = any_value (object e.map_value)
value_of_kind element_text e = text_string e.value

unfoldable pub cbor_value : Element → Cbor
unfolding value_of_kind
cbor_value e = value_of_kind e.kind e

-- A struct or a map by its names.
unfoldable pub named : List (String × Cbor) → Pairs
named [] = no_pairs
named ((name, value) ∷ rest) = entry (text_string name) value (named rest)

-- An IssuerSignedItem, its fields in their order
unfoldable pub issuer_signed_item : ℕ → List ℕ → Element → Cbor
unfolding named cbor_value
issuer_signed_item digest_id random elem = struct_of (
    named (
      ("digestID", integer (pos digest_id))
      ∷ ("random", byte_string random)
      ∷ ("elementIdentifier", text_string elem.identifier)
      ∷ ("elementValue", cbor_value elem)
      ∷ []))

pub record NamespaceDigest : Type 0 where
  pub tagged_items : List (List ℕ)
  pub digests : Dict ℕ (List ℕ)

module _ {Key KeySet : Type 0} (p : Platform Key KeySet) where
  -- `drawn` is what rand.Read gives for 16 bytes.
  unfoldable pub build_issuer_signed_item : Result (List ℕ) → ℕ → Element → Result (List ℕ)
  unfolding issuer_signed_item
  build_issuer_signed_item drawn digest_id elem =
      and_then drawn λ random. p.marshal_cbor (issuer_signed_item digest_id random elem)

  -- One round of the loop, for the element at `i`.
  unfoldable pub add_item :
      (ℕ → Result (List ℕ)) → ℕ → Element → NamespaceDigest → Result NamespaceDigest
  unfolding build_issuer_signed_item
  add_item random i elem nd = and_then (build_issuer_signed_item (random i) i elem) λ item_bytes.
      and_then (p.marshal_cbor (tagged 24 (byte_string item_bytes))) λ bytes. ok (record {
        tagged_items = nd.tagged_items ++ bytes ∷ [];
        digests = put i (p.sha256 bytes) nd.digests;
      })

  unfoldable pub add_items :
      (ℕ → Result (List ℕ)) → ℕ → List Element → NamespaceDigest → Result NamespaceDigest
  add_items random i [] nd = ok nd
  add_items random i (elem ∷ elems) nd =
      and_then (add_item random i elem nd) λ next. add_items random (suc i) elems next

  unfoldable pub build_namespace_items :
      (ℕ → Result (List ℕ)) → List Element → Result NamespaceDigest
  unfolding add_items
  build_namespace_items random elements =
      add_items random 0 elements (record { tagged_items = []; digests = [] })
