-- ===== src/Result/Exec.antt =====
-- internal/oauth2/error.go, and the monad of methods that return `(T, error)`.
use fikua_lab_issuer.Prelude.{
  ℕ, String, Bool, true, false, Option, none, some, concat, ◌≡◌, refl, arith, String-eq,
}
use fikua_lab_issuer.Prelude.{if◌then◌else◌}

abbrev pub invalid_request : String
invalid_request = "invalid_request"

abbrev pub invalid_token : String
invalid_token = "invalid_token"

abbrev pub invalid_proof : String
invalid_proof = "invalid_proof"

abbrev pub invalid_nonce : String
invalid_nonce = "invalid_nonce"

abbrev pub unknown_credential_configuration : String
unknown_credential_configuration = "unknown_credential_configuration"

abbrev pub unknown_credential_identifier : String
unknown_credential_identifier = "unknown_credential_identifier"

abbrev pub invalid_credential_request : String
invalid_credential_request = "invalid_credential_request"

-- The `Error` body, inside the `Exception` that pairs it with an HTTP status.
pub record Exception : Type 0 where
  pub http_status : ℕ
  pub code : String
  pub description : String

-- Go's `error`: an `*Exception`, or an error of a library with its text. A panic, which ends the
-- request, is an error here too.
pub data GoError : Type 0 where
  exception : Exception → GoError
  plain : String → GoError
  panic : String → GoError

-- `err.Error()`
unfoldable pub error_text : GoError → String
error_text (exception x) = concat x.code (concat ": " x.description)
error_text (plain message) = message
error_text (panic message) = message

unfoldable pub bad_request : String → String → GoError
bad_request code description =
    exception (record { http_status = 400; code = code; description = description })

unfoldable pub unauthorized : String → String → GoError
unauthorized code description =
    exception (record { http_status = 401; code = code; description = description })

unfoldable pub service_unavailable : String → String → GoError
service_unavailable code description =
    exception (record { http_status = 503; code = code; description = description })

pub data Result (A : Type 0) : Type 0 where
  ok : A → Result A
  err : GoError → Result A

-- A method: its result, and the state that it leaves, whichever the result.
abbrev pub Exec : Type 0 → Type 0 → Type 0
Exec S A = S → Result A × S

abbrev pub continue : {S A B : Type 0} → Result A → S → (A → Exec S B) → Result B × S
continue (ok a) s f = f a s
continue (err e) s f = (err e, s)

infixl 5 ◌>>=◌ ◌>>◌
unfoldable pub ◌>>=◌ : {S A B : Type 0} → Exec S A → (A → Exec S B) → Exec S B
◌>>=◌ m f s = continue (m s).0 (m s).1 f

abbrev pub ◌>>◌ : {S B : Type 0} → Exec S (Unit {0}) → Exec S B → Exec S B
m >> k = m >>= λ _. k

unfoldable pub pure : {S A : Type 0} → A → Exec S A
pure a s = (ok a, s)

unfoldable pub raise : {S A : Type 0} → GoError → Exec S A
raise e s = (err e, s)

unfoldable pub lift : {S A : Type 0} → Result A → Exec S A
lift r s = (r, s)

unfoldable pub gets : {S A : Type 0} → (S → A) → Exec S A
gets f s = (ok (f s), s)

unfoldable pub modify : {S : Type 0} → (S → S) → Exec S (Unit {0})
modify f s = (ok tt, f s)

-- `if !test { return err }`
unfoldable pub require : {S : Type 0} → Bool → GoError → Exec S (Unit {0})
require true e s = (ok tt, s)
require false e s = (err e, s)

-- A method of a part of the state, with how to read and replace the part.
unfoldable pub zoom : {S T A : Type 0} → (S → T) → (T → S → S) → Exec T A → Exec S A
zoom part replace m s = ((m (part s)).0, replace (m (part s)).1 s)

-- `v, err := ...; if err != nil { return err }`, where no state is at hand
unfoldable pub and_then : {A B : Type 0} → Result A → (A → Result B) → Result B
and_then (ok a) f = f a
and_then (err e) f = err e

-- `v, ok := ...; if !ok { return err }`
unfoldable pub from_option : {A : Type 0} → Option A → GoError → Result A
from_option none e = err e
from_option (some a) e = ok a

-- `if err != nil { return wrap(err) }`
unfoldable pub map_error : {A : Type 0} → (GoError → GoError) → Result A → Result A
map_error f (ok a) = ok a
map_error f (err e) = err (f e)

-- A method whose error is replaced by another.
unfoldable pub caught : {S A : Type 0} → (GoError → GoError) → Exec S A → Exec S A
caught f m s = (map_error f (m s).0, (m s).1)

-- `v, _ := ...`: the zero value where there is none
abbrev pub or_empty : Option String → String
or_empty none = ""
or_empty (some s) = s

-- Inversion of a successful chain.
pub >>=-ok :
    {S A B : Type 0} (m : Exec S A) (f : A → Exec S B) (s s' : S) (b : B)
    → (m >>= f) s ≡ (ok b, s')
    → (a : A) × (t : S) × (m s ≡ (ok a, t)) × (f a t ≡ (ok b, s'))
unfolding ◌>>=◌
>>=-ok {S} {A} {B} m f s s' b h = go (m s) refl
  where
    go : (r : Result A × S) → m s ≡ r → (a : A) × (t : S) × (m s ≡ (ok a, t)) × (f a t ≡ (ok b, s'))
    go (ok a, t) e = (a, t, e, cc)
    go (err x, t) e = cc

pub require-ok :
    {S : Type 0} (b : Bool) (e : GoError) (s s' : S) (u : Unit {0})
    → require b e s ≡ (ok u, s')
    → (b ≡ true) × (s ≡ s')
unfolding require
require-ok true e s s' u h = ground arith
require-ok false e s s' u h = cc

pub lift-ok :
    {S A : Type 0} (r : Result A) (s s' : S) (a : A) → lift r s ≡ (ok a, s') → (r ≡ ok a) × (s ≡ s')
unfolding lift
lift-ok r s s' a h = ground arith

pub from_option-ok :
    {A : Type 0} (o : Option A) (e : GoError) (a : A) → from_option o e ≡ ok a → o ≡ some a
unfolding from_option
from_option-ok none e a h = cc
from_option-ok (some b) e a h = ground arith

pub and_then-ok :
    {A B : Type 0} (r : Result A) (f : A → Result B) (b : B)
    → and_then r f ≡ ok b
    → (a : A) × (r ≡ ok a) × (f a ≡ ok b)
unfolding and_then
and_then-ok (ok a) f b h = (a, refl, h)
and_then-ok (err e) f b h = cc

pub map_error-ok :
    {A : Type 0} (f : GoError → GoError) (r : Result A) (a : A) → map_error f r ≡ ok a → r ≡ ok a
unfolding map_error
map_error-ok f (ok b) a h = h
map_error-ok f (err e) a h = cc

pub ok_injective : {A : Type 0} (a b : A) → ok a ≡ ok b → a ≡ b
ok_injective a b h = ground arith

-- A run whose result is known, with the state that it leaves.
pub pair_of : {S A : Type 0} (run : Result A × S) (r : Result A) → run.0 ≡ r → run ≡ (r, run.1)
pair_of run r h = ground (arith, h)

-- `if test { return err }` where no state is at hand
pub unless-ok :
    {A : Type 0} (b : Bool) (e : GoError) (r : Result A) (a : A)
    → (if b then err e else r) ≡ ok a
    → (b ≡ false) × (r ≡ ok a)
unless-ok true e r a h = cc
unless-ok false e r a h = (refl, h)
