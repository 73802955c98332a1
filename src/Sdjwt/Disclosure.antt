-- ===== src/Sdjwt/Disclosure.antt =====
-- internal/sdjwt/disclosure.go: one selectively disclosable claim.
use fikua_lab_issuer.Platform.{Json, Platform, array, bytes, item, no_items, str}
use fikua_lab_issuer.Prelude.{List, String, String-eq, ℕ}
use fikua_lab_issuer.Result.Exec.{Result, and_then, ok}

pub record Disclosure : Type 0 where
  pub salt : String
  pub claim_name : String
  pub value : Json
  pub encoded : String

-- `[]any{salt, claimName, value}`
abbrev triple : String → String → Json → Json
triple salt name value = array (item (str salt) (item (str name) (item value no_items)))

module _ {Key KeySet : Type 0} (p : Platform Key KeySet) where
  -- `drawn` is what rand.Read gives for 16 bytes.
  unfoldable pub new_disclosure : Result (List ℕ) → String → Json → Result Disclosure
  new_disclosure drawn name value = and_then drawn λ salt_bytes.
      and_then (p.marshal_json (triple (p.base64url salt_bytes) name value)) λ arr. ok (record {
        salt = p.base64url salt_bytes;
        claim_name = name;
        value = value;
        encoded = p.base64url (bytes arr);
      })

  -- The digest of an encoded disclosure.
  unfoldable pub digest_of : String → String
  digest_of encoded = p.base64url (p.sha256 (bytes encoded))

  unfoldable pub digest : Disclosure → String
  unfolding digest_of
  digest d = digest_of d.encoded
