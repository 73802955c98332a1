-- ===== src/Result/Ensures.antt =====
-- What a successful chain of methods has established, and how a chain runs: one rule for each way
-- to build a method, used from the first step on.
use fikua_lab_issuer.Prelude.{Option, arith, refl, some, ◌≡◌, Bool, false, true}
use fikua_lab_issuer.Result.Exec.{
  Exec, GoError, Result, continue, err, from_option, from_option-ok, lift, map_error, map_error-ok,
  ok, pure, ◌>>=◌, require, caught, gets, modify,
}
use fikua_lab_issuer.Prelude.{if◌then◌else◌}

-- If a run succeeds, its result and state satisfy `Q`.
pub record Ensures {S A : Type 0} (Q : A → S → Type 0) (run : Result A × S) : Type 0 where
  pub at : (a : A) (s : S) → run ≡ (ok a, s) → Q a s

module _ {S A : Type 0} {Q : A → S → Type 0} where
  pub Ensures-pure : (a : A) (s : S) → Q a s → Ensures Q (pure a s)
  unfolding pure
  Ensures-pure a s h = record { at = λ b t q. ground (arith, h) }

module _ {S A B : Type 0} {Q : B → S → Type 0} where
  continue-Ensures :
      (r : Result A) (t : S) (f : A → Exec S B)
      → ((a : A) → r ≡ ok a → Ensures Q (f a t))
      → Ensures Q (continue r t f)
  continue-Ensures (ok a) t f k = k a refl
  continue-Ensures (err x) t f k = record { at = λ b t' q. cc }

  pub Ensures-bind :
      (m : Exec S A) (f : A → Exec S B) (s : S)
      → ((a : A) → (m s).0 ≡ ok a → Ensures Q (f a (m s).1))
      → Ensures Q ((m >>= f) s)
  unfolding ◌>>=◌
  Ensures-bind m f s k = continue-Ensures (m s).0 (m s).1 f k

  -- A method whose run is known.
  pub Ensures-known :
      (m : Exec S A) (f : A → Exec S B) (s : S) (a : A) (t : S)
      → m s ≡ (ok a, t)
      → Ensures Q (f a t)
      → Ensures Q ((m >>= f) s)
  unfolding ◌>>=◌
  Ensures-known m f s a t q h = rw q h

  -- A method that leaves the state as it is when it succeeds.
  pub Ensures-stay :
      (m : Exec S A) (f : A → Exec S B) (s : S)
      → ((a : A) → (m s).0 ≡ ok a → (m s).1 ≡ s)
      → ((a : A) → (m s).0 ≡ ok a → Ensures Q (f a s))
      → Ensures Q ((m >>= f) s)
  Ensures-stay m f s stay k = Ensures-bind m f s (λ a h. rw (stay a h) (k a h))

  pub Ensures-gets :
      (g : S → A) (f : A → Exec S B) (s : S) → Ensures Q (f (g s) s) → Ensures Q ((gets g >>= f) s)
  unfolding ◌>>=◌ gets
  Ensures-gets g f s h = h

  pub Ensures-lift :
      (r : Result A) (f : A → Exec S B) (s : S)
      → ((a : A) → r ≡ ok a → Ensures Q (f a s))
      → Ensures Q ((lift r >>= f) s)
  unfolding ◌>>=◌ lift
  Ensures-lift r f s k = continue-Ensures r s f k

  pub Ensures-option :
      (o : Option A) (e : GoError) (f : A → Exec S B) (s : S)
      → ((a : A) → o ≡ some a → Ensures Q (f a s))
      → Ensures Q ((lift (from_option o e) >>= f) s)
  Ensures-option o e f s k =
      Ensures-lift (from_option o e) f s (λ a h. k a (from_option-ok o e a h))

  pub Ensures-mapped :
      (g : GoError → GoError) (r : Result A) (f : A → Exec S B) (s : S)
      → ((a : A) → r ≡ ok a → Ensures Q (f a s))
      → Ensures Q ((lift (map_error g r) >>= f) s)
  Ensures-mapped g r f s k = Ensures-lift (map_error g r) f s (λ a h. k a (map_error-ok g r a h))

  pub Ensures-caught :
      (g : GoError → GoError) (m : Exec S A) (f : A → Exec S B) (s : S)
      → ((a : A) → (m s).0 ≡ ok a → Ensures Q (f a (m s).1))
      → Ensures Q ((caught g m >>= f) s)
  unfolding caught
  Ensures-caught g m f s k = Ensures-bind (caught g m) f s (λ a h. k a (map_error-ok g (m s).0 a h))

module _ {S B : Type 0} {Q : B → S → Type 0} where
  pub Ensures-require :
      (b : Bool) (e : GoError) (f : Unit {0} → Exec S B) (s : S)
      → (b ≡ true → Ensures Q (f tt s))
      → Ensures Q ((require b e >>= f) s)
  unfolding ◌>>=◌ require
  Ensures-require true e f s k = k refl
  Ensures-require false e f s k = record { at = λ b t q. cc }

-- A method that only changes the state, at the end of a chain.
pub Ensures-modify :
    {S : Type 0} {Q : Unit {0} → S → Type 0} (f : S → S) (s : S)
    → Q tt (f s)
    → Ensures Q (modify f s)
unfolding modify
Ensures-modify f s h = record { at = λ u t q. ground (arith, h) }

-- A test that ends a method.
pub Ensures-last :
    {S : Type 0} {Q : Unit {0} → S → Type 0} (b : Bool) (e : GoError) (s : S)
    → (b ≡ true → Q tt s)
    → Ensures Q (require b e s)
unfolding require
Ensures-last {S} {Q} true e s k = record { at = λ u t q. ground (arith, k refl) }
Ensures-last false e s k = record { at = λ u t q. cc }

module _ {S B : Type 0} where
  pub run-require :
      (b : Bool) (e : GoError) (f : Unit {0} → Exec S B) (s : S)
      → b ≡ true
      → (require b e >>= f) s ≡ f tt s
  unfolding ◌>>=◌ require
  run-require true e f s h = refl
  run-require false e f s h = cc

module _ {S A B : Type 0} where
  pub run-lift :
      (r : Result A) (a : A) (f : A → Exec S B) (s : S) → r ≡ ok a → (lift r >>= f) s ≡ f a s
  unfolding ◌>>=◌ lift
  run-lift r a f s h = rw h

  pub run-bind :
      (m : Exec S A) (a : A) (f : A → Exec S B) (s t : S) → m s ≡ (ok a, t) → (m >>= f) s ≡ f a t
  unfolding ◌>>=◌
  run-bind m a f s t h = rw h

  pub run-option :
      (o : Option A) (a : A) (e : GoError) (f : A → Exec S B) (s : S)
      → o ≡ some a
      → (lift (from_option o e) >>= f) s ≡ f a s
  unfolding from_option
  run-option o a e f s h = run-lift (from_option o e) a f s (rw h)

  pub run-mapped :
      (g : GoError → GoError) (r : Result A) (a : A) (f : A → Exec S B) (s : S)
      → r ≡ ok a
      → (lift (map_error g r) >>= f) s ≡ f a s
  unfolding map_error
  run-mapped g r a f s h = run-lift (map_error g r) a f s (rw h)

pub Ensures-if :
    {S B : Type 0} {Q : B → S → Type 0} (b : Bool) (m k : Exec S B) (s : S)
    → (b ≡ true → Ensures Q (m s))
    → (b ≡ false → Ensures Q (k s))
    → Ensures Q ((if b then m else k) s)
Ensures-if true m k s h h' = h refl
Ensures-if false m k s h h' = h' refl
