-- ===== src/Transport/Raises.antt =====
-- Which exceptions a call can raise, by the way in which the call is built.
pub mod Tame
use sandstorm_ios_driver.Prelude.{◌≡◌, refl, Bool, true, false, if◌then◌else◌}
use sandstorm_ios_driver.Python.Exception.{Except, ok, err, Exc, Action, continue, bind, ◌>>=◌}

module _ {F : Type 0} (allowed : Exc F → Bool) where
  -- A result that is a value, or one of the allowed exceptions.
  abbrev pub Only : {A : Type 0} → Except F A → Type 0
  Only (ok a) = Unit
  Only (err e) = allowed e ≡ true

  pub Only-bind :
      {A B : Type 0} (r : Except F A) (f : A → Except F B)
      → Only r
      → ((a : A) → Only (f a))
      → Only (r >>= f)
  Only-bind (ok a) f h k = k a
  Only-bind (err e) f h k = h

  pub Only-continue :
      {A B S : Type 0} (f : A → Action F S B) (out : Except F A × S)
      → Only out.0
      → ((a : A) (s : S) → Only (f a s).0)
      → Only (continue f out).0
  Only-continue f (ok a, s) h k = k a s
  Only-continue f (err e, s) h k = h

  -- The same, where the rest may use that the step returned.
  pub Only-steps :
      {A B S : Type 0} (f : A → Action F S B) (out : Except F A × S)
      → Only out.0
      → ((a : A) (s : S) → out ≡ (ok a, s) → Only (f a s).0)
      → Only (continue f out).0
  Only-steps f (ok a, s) h k = k a s refl
  Only-steps f (err e, s) h k = h

  pub Only-if :
      {A : Type 0} (b : Bool) (r q : Except F A) → Only r → Only q → Only (if b then r else q)
  Only-if true r q h k = h
  Only-if false r q h k = k

  pub Only-choice :
      {A S : Type 0} (b : Bool) (m q : Action F S A) (s : S)
      → Only (m s).0
      → Only (q s).0
      → Only ((if b then m else q) s).0
  Only-choice true m q s h k = h
  Only-choice false m q s h k = k

-- What holds of the state before a step and after it, whatever the step's result.
module _ {F S : Type 0} (P : S → Type 0) where
  pub Keeps-continue :
      {A B : Type 0} (f : A → Action F S B) (out : Except F A × S)
      → P out.1
      → ((a : A) (s : S) → P s → P (f a s).1)
      → P (continue f out).1
  Keeps-continue f (ok a, s) h k = k a s h
  Keeps-continue f (err e, s) h k = h

  pub Keeps-choice :
      {A : Type 0} (b : Bool) (m q : Action F S A) (s : S)
      → P (m s).1
      → P (q s).1
      → P ((if b then m else q) s).1
  Keeps-choice true m q s h k = h
  Keeps-choice false m q s h k = k

-- What holds of the value and the state of a call that returns.
module _ {F S A : Type 0} (Q : A → S → Type 0) where
  abbrev pub Post : Except F A × S → Type 0
  Post (ok a, s) = Q a s
  Post (err e, s) = Unit

  pub Post-continue :
      {B : Type 0} (f : B → Action F S A) (out : Except F B × S)
      → ((b : B) (s : S) → out ≡ (ok b, s) → Post (f b s))
      → Post (continue f out)
  Post-continue f (ok b, s) k = k b s refl
  Post-continue f (err e, s) k = tt

  pub Post-bind :
      {B : Type 0} (r : Except F B) (f : B → Except F A) (s : S)
      → ((b : B) → Post (f b, s))
      → Post ((r >>= f), s)
  Post-bind (ok b) f s k = k b
  Post-bind (err e) f s k = tt
