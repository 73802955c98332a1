-- ===== src/Oid4vci/Messages.antt =====
-- internal/oid4vci/offer.go, request.go and response.go
use fikua_lab_issuer.Platform.{
  Items, Json, Members, array, item, member, no_items, no_members, object, str,
}
use fikua_lab_issuer.Prelude.{
  List, Option, String, String-eq, [], if◌then◌else◌, none, some, ◌==◌, ◌∷◌,
}
use fikua_lab_issuer.Prelude.Dict.{Dict, get}

pub record CredentialOffer : Type 0 where
  pub credential_issuer : String
  pub credential_configuration_ids : List String
  pub grants : Members

abbrev pub authorization_code_grant : String
authorization_code_grant = "authorization_code"

unfoldable pub authorization_code_offer :
    (issuer_url config_id issuer_state : String) → CredentialOffer
authorization_code_offer issuer_url config_id issuer_state =
    let grant : Members =
      if issuer_state == ""
      then no_members
      else member "issuer_state" (str issuer_state) no_members in
    record {
      credential_issuer = issuer_url;
      credential_configuration_ids = config_id ∷ [];
      grants = member authorization_code_grant (object grant) no_members;
    }

strings : List String → Items
strings [] = no_items
strings (s ∷ ss) = item (str s) (strings ss)

-- The object that json.Marshal writes for an offer, in the order of the struct's fields.
unfoldable pub offer_object : CredentialOffer → Json
unfolding strings
offer_object o = object (
    member "credential_issuer" (str o.credential_issuer) (
      member "credential_configuration_ids" (array (strings o.credential_configuration_ids))
        (member "grants" (object o.grants) no_members)))

pub record Proof : Type 0 where
  pub proof_type : String
  pub jwt : String

-- The fields of a credential request that the issuer reads.
pub record CredentialRequest : Type 0 where
  pub credential_configuration_id : String
  pub credential_identifier : String
  pub proof : Option Proof
  pub proofs : Dict String (List String)

single_proof_jwt : Option Proof → String
single_proof_jwt none = ""
single_proof_jwt (some proof) = if proof.proof_type == "jwt" then proof.jwt else ""

first_proof_jwt : Option (List String) → Option Proof → String
first_proof_jwt (some (jwt ∷ _)) proof = jwt
first_proof_jwt (some []) proof = single_proof_jwt proof
first_proof_jwt none proof = single_proof_jwt proof

unfoldable pub extract_proof_jwt : CredentialRequest → String
unfolding first_proof_jwt single_proof_jwt
extract_proof_jwt r = first_proof_jwt (get "jwt" r.proofs) r.proof

-- The response holds one credential.
pub record CredentialResponse : Type 0 where
  pub credentials : List (Dict String String)

unfoldable pub success_response : String → CredentialResponse
success_response credential = record { credentials = (("credential", credential) ∷ []) ∷ [] }
