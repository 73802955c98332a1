-- ===== src/Session.antt =====
-- internal/session/store.go: the single-use nonces and the credential offers. A random token is an
-- argument of the operation that draws it; each operation holds the mutex, so it is one step.
pub mod Nonces
use fikua_lab_issuer.Prelude.{String, Bool, true, false, Option, [], if◌then◌else◌, String-eq}
use fikua_lab_issuer.Prelude.Dict.{Dict, get, put, delete, has}

pub record Store : Type 0 where
  pub nonces : Dict String (Unit {0})
  pub credential_offers : Dict String String

unfoldable pub new_store : Store
new_store = record { nonces = []; credential_offers = [] }

unfoldable pub register_nonce : String → Store → Store
register_nonce nonce s = record s { nonces = put nonce tt s.nonces }

-- The answer, and the store after it.
unfoldable pub validate_nonce : String → Store → Bool × Store
validate_nonce nonce s =
    if has nonce s.nonces then (true, record s { nonces = delete nonce s.nonces }) else (false, s)

unfoldable pub invalidate_nonce : String → Store → Store
invalidate_nonce nonce s = record s { nonces = delete nonce s.nonces }

-- `id` is the drawn offer id, which is also the result.
unfoldable pub store_credential_offer : String → String → Store → String × Store
store_credential_offer id offer_json s =
    (id, record s { credential_offers = put id offer_json s.credential_offers })

unfoldable pub get_credential_offer : String → Store → Option String
get_credential_offer id s = get id s.credential_offers
