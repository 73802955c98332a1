-- ===== src/Result/Leaves.antt =====
-- What a chain of methods leaves, whether it succeeds or fails: one rule for each way to build one.
use fikua_lab_issuer.Prelude.{Bool, false, refl, true, ◌≡◌, if◌then◌else◌}
use fikua_lab_issuer.Result.Exec.{Exec, GoError, Result, continue, err, lift, ok, require, ◌>>=◌}

module _ {S A B : Type 0} (Q : S → Type 0) where
  continue-leaves :
      (r : Result A) (t : S) (f : A → Exec S B)
      → Q t
      → ((a : A) → r ≡ ok a → Q (f a t).1)
      → Q (continue r t f).1
  continue-leaves (ok a) t f h k = k a refl
  continue-leaves (err e) t f h k = h

  -- The state after the first method satisfies `Q`, and so does the one after the rest, if it runs.
  pub leaves-bind :
      (m : Exec S A) (f : A → Exec S B) (s : S)
      → Q (m s).1
      → ((a : A) → (m s).0 ≡ ok a → Q (f a (m s).1).1)
      → Q ((m >>= f) s).1
  unfolding ◌>>=◌
  leaves-bind m f s h k = continue-leaves (m s).0 (m s).1 f h k

  pub leaves-lift :
      (r : Result A) (f : A → Exec S B) (s : S)
      → Q s
      → ((a : A) → r ≡ ok a → Q (f a s).1)
      → Q ((lift r >>= f) s).1
  unfolding ◌>>=◌ lift
  leaves-lift r f s h k = continue-leaves r s f h k

module _ {S B : Type 0} (Q : S → Type 0) where
  pub leaves-require :
      (b : Bool) (e : GoError) (f : Unit {0} → Exec S B) (s : S)
      → Q s
      → Q (f tt s).1
      → Q ((require b e >>= f) s).1
  unfolding ◌>>=◌ require
  leaves-require true e f s h k = k
  leaves-require false e f s h k = h

pub require-leaves :
    {S : Type 0} (Q : S → Type 0) (b : Bool) (e : GoError) (s : S) → Q s → Q (require b e s).1
unfolding require
require-leaves Q true e s h = h
require-leaves Q false e s h = h

pub leaves-if :
    {S B : Type 0} (Q : S → Type 0) (b : Bool) (m k : Exec S B) (s : S)
    → Q (m s).1
    → Q (k s).1
    → Q ((if b then m else k) s).1
leaves-if Q true m k s h h' = h
leaves-if Q false m k s h h' = h'
