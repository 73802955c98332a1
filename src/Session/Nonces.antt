-- ===== src/Session/Nonces.antt =====
-- The nonces of internal/session/store.go, over sequences of calls by any number of requests.
use fikua_lab_issuer.Prelude.{
  ℕ, ◌+◌, ◌≤◌, String, ◌≡◌, Bool, true, false, List, [], ◌∷◌, arith, eq_iff, ◌==◌, eq_refl,
  if◌then◌else◌, String-eq,
}
use fikua_lab_issuer.Prelude.Dict.{get, has, has-delete, has-put}
use fikua_lab_issuer.Session.{
  Store, new_store, register_nonce, validate_nonce, invalidate_nonce, store_credential_offer,
}

-- The calls of the store that change it.
pub data Call : Type 0 where
  register validate invalidate : String → Call
  store_offer : String → String → Call

-- The store after a call, and whether the call was a validation of `n` that passed.
unfoldable pub step : Call → Store → Store
step (register n) s = register_nonce n s
step (validate n) s = (validate_nonce n s).1
step (invalidate n) s = invalidate_nonce n s
step (store_offer id json) s = (store_credential_offer id json s).1

abbrev one : Bool → ℕ
one true = 1
one false = 0

abbrev passes : String → Call → Store → Bool
passes n (validate m) s = if m == n then (validate_nonce m s).0 else false
passes n _ s = false

abbrev registers : String → Call → Bool
registers n (register m) = m == n
registers n _ = false

-- How many validations of `n` pass in a sequence of calls, and how often it is registered there.
pub accepted : String → List Call → Store → ℕ
accepted n [] s = 0
accepted n (c ∷ cs) s = one (passes n c s) + accepted n cs (step c s)

pub registered : String → List Call → ℕ
registered n [] = 0
registered n (c ∷ cs) = one (registers n c) + registered n cs

-- One call: what passes was there, and what is there now was there or has been registered.
step_budget :
    (n : String) (c : Call) (s : Store)
    → one (passes n c s) + one (has n (step c s).nonces)
      ≤ one (registers n c) + one (has n s.nonces)
unfolding step register_nonce validate_nonce invalidate_nonce store_credential_offer
step_budget n (register m) s = ground (arith, has-put m n tt s.nonces)
step_budget n (validate m) s = ground (arith, has-delete m n s.nonces, eq_iff m n)
step_budget n (invalidate m) s = ground (arith, has-delete m n s.nonces)
step_budget n (store_offer id json) s = ground arith

accepted_budget :
    (n : String) (cs : List Call) (s : Store)
    → accepted n cs s ≤ registered n cs + one (has n s.nonces)
unfolding accepted registered
accepted_budget n [] s = omega arith
accepted_budget n (c ∷ cs) s = omega (arith, step_budget n c s, accepted_budget n cs (step c s))

-- Starting from an empty store, whatever the sequence of calls, a nonce passes validation at most
-- as often as it has been registered.
pub accepted-le-registered :
    (n : String) (cs : List Call) → accepted n cs new_store ≤ registered n cs
unfolding new_store has get
accepted-le-registered n cs = omega (arith, accepted_budget n cs new_store)

-- A registered nonce passes the next validation and fails the one after it, and every other nonce
-- is registered after the two calls exactly if it was before.
pub validate-register :
    (n m : String) (s : Store)
    → ((validate_nonce n (register_nonce n s)).0 ≡ true)
      × ((validate_nonce n (validate_nonce n (register_nonce n s)).1).0 ≡ false)
      × (has m (validate_nonce n (register_nonce n s)).1.nonces
          ≡ (if n == m then false else has m s.nonces))
unfolding validate_nonce register_nonce
validate-register n m s = (
  ground (arith, has-put n n tt s.nonces, eq_refl n),
  ground (arith, has-put n n tt s.nonces, eq_refl n, has-delete n n (register_nonce n s).nonces),
  ground (
    arith,
    has-put n n tt s.nonces,
    eq_refl n,
    has-put n m tt s.nonces,
    has-delete n m (register_nonce n s).nonces,
  ),
)
