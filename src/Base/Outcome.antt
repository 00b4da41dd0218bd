-- ===== src/Base/Outcome.antt =====
-- What a call of the program ends with: a value, or a fault that ends the program or leaves its
-- behaviour undefined.
use mathlib.Core.Option.{Option, none, some}

pub data Fault : Type 0 where
  -- an access outside of an array or a vector
  out_of_bounds : Fault
  -- a null registry is dereferenced
  null_registry : Fault
  -- an `assert` fails
  assertion : Fault
  -- an object is used that does not exist
  dangling : Fault
  -- `std::terminate` is called
  terminated : Fault
  -- an object is used that was never constructed
  unconstructed : Fault
  -- a `std::system_error` is thrown, which nothing catches
  system_error : Fault

pub data Outcome {ℓ} (A : Type ℓ) : Type ℓ where
  ok : A → Outcome A
  fault : Fault → Outcome A

infixl 5 ◌>>=◌
abbrev pub ◌>>=◌ {ℓ κ} : {A : Type ℓ} {B : Type κ} → Outcome A → (A → Outcome B) → Outcome B
ok a >>= f = f a
fault e >>= f = fault e

abbrev pub or_fault {ℓ} : {A : Type ℓ} → Option A → Fault → Outcome A
or_fault none e = fault e
or_fault (some a) e = ok a
