-- ===== src/Result/Raises.antt =====
-- Which errors a chain of methods can return, one rule for each way to build a method.
use mathlib.Core.Path.{subst}
use fikua_lab_issuer.Prelude.{
  Bool, Option, String, String-eq, false, if◌then◌else◌, none, refl, some, true, ℕ, ◌≡◌, ap,
}
use fikua_lab_issuer.Result.Exec.{
  Exec, GoError, Result, bad_request, continue, err, exception, from_option, gets, lift, map_error,
  modify, ok, plain, pure, raise, require, service_unavailable, unauthorized, zoom, ◌>>=◌, caught,
  panic,
}
use fikua_lab_issuer.Result.Exec.{and_then}

-- Every error that a result can be satisfies `P`.
pub record OnError {A : Type 0} (P : GoError → Type 0) (r : Result A) : Type 0 where
  pub at : (e : GoError) → r ≡ err e → P e

-- Every error that `m` returns, from any state, satisfies `P`.
pub record Raises {S A : Type 0} (P : GoError → Type 0) (m : Exec S A) : Type 0 where
  pub at : (s : S) (e : GoError) → (m s).0 ≡ err e → P e

-- An *Exception with this HTTP status and this code.
abbrev pub IsException : ℕ → String → GoError → Type 0
IsException status code' (exception x) = (x.http_status ≡ status) × (x.code ≡ code')
IsException status code' (plain _) = ⊥
IsException status code' (panic _) = ⊥

pub bad_request-IsException : (c d : String) → IsException 400 c (bad_request c d)
unfolding bad_request
bad_request-IsException c d = (refl, refl)

pub unauthorized-IsException : (c d : String) → IsException 401 c (unauthorized c d)
unfolding unauthorized
unauthorized-IsException c d = (refl, refl)

pub service_unavailable-IsException : (c d : String) → IsException 503 c (service_unavailable c d)
unfolding service_unavailable
service_unavailable-IsException c d = (refl, refl)

abbrev error_or : (A : Type 0) → GoError → Result A → GoError
error_or A d (ok a) = d
error_or A d (err e) = e

err_of :
    (A : Type 0) (P : GoError → Type 0) (x e : GoError)
    → ◌≡◌ {A = Result A} (err x) (err e)
    → P x
    → P e
err_of A P x e h k = subst P (ap (error_or A x) h) k

module _ {A : Type 0} {P : GoError → Type 0} where
  pub OnError-ok : (a : A) → OnError P (ok a)
  OnError-ok a = record { at = λ x q. cc }

  pub OnError-err : (e : GoError) → P e → OnError {A = A} P (err e)
  OnError-err e h = record { at = λ x q. err_of A P e x q h }

  pub OnError-if :
      (b : Bool) (r r' : Result A) → OnError P r → OnError P r' → OnError P (if b then r else r')
  OnError-if true r r' h k = h
  OnError-if false r r' h k = k

  pub OnError-from_option : (o : Option A) (e : GoError) → P e → OnError P (from_option o e)
  unfolding from_option
  OnError-from_option none e h = record { at = λ x q. err_of A P e x q h }
  OnError-from_option (some a) e h = record { at = λ x q. cc }

  pub OnError-map_error :
      (f : GoError → GoError) (r : Result A) → ((e : GoError) → P (f e)) → OnError P (map_error f r)
  unfolding map_error
  OnError-map_error f (ok a) h = record { at = λ x q. cc }
  OnError-map_error f (err e) h = record { at = λ x q. err_of A P (f e) x q (h e) }

module _ {S A : Type 0} {P : GoError → Type 0} where
  pub Raises-pure : (a : A) → Raises P (pure {S = S} a)
  unfolding pure
  Raises-pure a = record { at = λ s x q. cc }

  pub Raises-raise : (e : GoError) → P e → Raises P (raise {S = S} {A = A} e)
  unfolding raise
  Raises-raise e h = record { at = λ s x q. err_of A P e x q h }

  pub Raises-lift : (r : Result A) → OnError P r → Raises P (lift {S = S} r)
  unfolding lift
  Raises-lift r h = record { at = λ s. h.at }

  pub Raises-gets : (f : S → A) → Raises P (gets f)
  unfolding gets
  Raises-gets f = record { at = λ s x q. cc }

  pub Raises-if :
      (b : Bool) (m n : Exec S A) → Raises P m → Raises P n → Raises P (if b then m else n)
  Raises-if true m n km kn = km
  Raises-if false m n km kn = kn

  pub Raises-caught :
      (f : GoError → GoError) (m : Exec S A) → ((e : GoError) → P (f e)) → Raises P (caught f m)
  unfolding caught
  Raises-caught f m h = record { at = λ s. (OnError-map_error f (m s).0 h).at }

module _ {S : Type 0} {P : GoError → Type 0} where
  pub Raises-require : (b : Bool) (e : GoError) → P e → Raises P (require {S = S} b e)
  unfolding require
  Raises-require true e h = record { at = λ s x q. cc }
  Raises-require false e h = record { at = λ s x q. err_of (Unit {0}) P e x q h }

  pub Raises-modify : (f : S → S) → Raises P (modify f)
  unfolding modify
  Raises-modify f = record { at = λ s x q. cc }

pub Raises-zoom :
    {S T A : Type 0} {P : GoError → Type 0} (part : S → T) (replace : T → S → S) (m : Exec T A)
    → Raises P m
    → Raises P (zoom part replace m)
unfolding zoom
Raises-zoom part replace m h = record { at = λ s. h.at (part s) }

module _ {S A B : Type 0} {P : GoError → Type 0} where
  continue-raises :
      (r : Result A) (t : S) (f : A → Exec S B)
      → ((e : GoError) → r ≡ err e → P e)
      → ((a : A) → Raises P (f a))
      → (e : GoError) → (continue r t f).0 ≡ err e
      → P e
  continue-raises (ok a) t f h k e q = (k a).at t e q
  continue-raises (err x) t f h k e q = err_of B P x e q (h x refl)

  pub Raises-bind :
      (m : Exec S A) (f : A → Exec S B)
      → Raises P m
      → ((a : A) → Raises P (f a))
      → Raises P (m >>= f)
  unfolding ◌>>=◌
  Raises-bind m f km kf = record { at = λ s. continue-raises (m s).0 (m s).1 f (km.at s) kf }

module _ {A B : Type 0} {P : GoError → Type 0} where
  pub OnError-and_then :
      (r : Result A) (f : A → Result B)
      → OnError P r
      → ((a : A) → OnError P (f a))
      → OnError P (and_then r f)
  unfolding and_then
  OnError-and_then (ok a) f h k = k a
  OnError-and_then (err e) f h k = OnError-err e (h.at e refl)

pub ruleset raises_rules = (
  OnError-and_then, Raises-pure, Raises-raise, Raises-lift, Raises-gets, Raises-require,
  Raises-modify, Raises-if, Raises-zoom, Raises-bind, Raises-caught, OnError-from_option,
  OnError-map_error, bad_request-IsException, unauthorized-IsException,
  service_unavailable-IsException,
)
