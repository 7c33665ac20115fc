-- ===== src/Python/Exception.antt =====
-- Exceptions as values. A method that may raise is a state-passing function whose result is an
-- `Except`, and the state that it returns is the one in which it returned or raised.
use sandstorm_ios_driver.Prelude.{◌≡◌, refl, ◌⊎◌, inl, inr}
use sandstorm_ios_driver.Prelude.Text.{Text}
use sandstorm_ios_driver.Python.Json.{Json}

-- The classes of errors.py.
pub data ErrorClass : Type 0 where
  ios_error device_not_found agent_not_running agent_connection_error protocol_error : ErrorClass
  unauthorized element_not_found element_not_interactable stale_element : ErrorClass
  command_timeout app_launch_error session_lost setup_error : ErrorClass

-- An instance of one of them. `details` is `{}` where the constructor was given none.
pub record IosError (F : Type 0) : Type 0 where
  pub kind : ErrorClass
  pub code : Text
  pub message : Text
  pub details : Json F

-- What a call can raise; `no_fuel` is no exception of the program, and theorems exclude it.
pub data Exc (F : Type 0) : Type 0 where
  ios : IosError F → Exc F
  os_error socket_timeout struct_error value_error type_error attribute_error : Exc F
  key_error index_error assertion_error no_fuel : Exc F

pub data Except (F : Type 0) (A : Type 0) : Type 0 where
  ok : A → Except F A
  err : Exc F → Except F A

module _ {F : Type 0} where
  infixl 5 ◌>>=◌
  abbrev pub ◌>>=◌ : {A B : Type 0} → Except F A → (A → Except F B) → Except F B
  ok a >>= f = f a
  err e >>= f = err e

-- To split on a computed result and keep the equation.
pub Except-cases :
    {F A : Type 0} (r : Except F A) → ((a : A) × (r ≡ ok a)) ⊎ ((e : Exc F) × (r ≡ err e))
Except-cases (ok a) = inl (a, refl)
Except-cases (err e) = inr (e, refl)

-- A method: the result, and the state after it.
abbrev pub Action : Type 0 → Type 0 → Type 0 → Type 0
Action F S A = S → Except F A × S

module _ {F S : Type 0} where
  abbrev pub pure : {A : Type 0} → A → Action F S A
  pure a s = (ok a, s)

  abbrev pub raise : {A : Type 0} → Exc F → Action F S A
  raise e s = (err e, s)

  -- The rest of a method after a step, by the step's result.
  abbrev pub continue : {A B : Type 0} → (A → Action F S B) → Except F A × S → Except F B × S
  continue f (ok a, s) = f a s
  continue f (err e, s) = (err e, s)

  abbrev pub bind : {A B : Type 0} → Action F S A → (A → Action F S B) → Action F S B
  bind m f s = continue f (m s)
