-- ===== src/Prelude/Outcome.antt =====
-- Exceptions as values.

use mathlib.Core.Path.{◌≡◌, refl}
use mathlib.Core.Logic.{◌⊎◌, inl, inr}
use mathlib.Core.Bool.{Bool, true, false}
use Prim.Native.String.{String}
use eastwatch.Prelude.Tests.{if◌then◌else◌}

-- The exception classes that the controller raises. `transient` is what a failed request to the
-- forge becomes, with its text; `integrity` is SQLite's, raised by a
-- constraint of the schema.
pub data Error : Type 0 where
  stale_lease ownership unknown_workspace runtime integrity configuration : Error
  transient : String → Error

-- What a call gives: the exception that it raises, or its value.
pub data Result (A : Type 0) : Type 0 where
  err : Error → Result A
  ok : A → Result A

-- A raised exception skips what follows.
infixl 5 ◌>>=◌
abbrev pub ◌>>=◌ : {A B : Type 0} → Result A → (A → Result B) → Result B
err raised >>= next = err raised
ok value >>= next = next value

module _ {A : Type 0} where
  pub Result-cases :
      (outcome : Result A)
      → ((value : A) × (outcome ≡ ok value)) ⊎ ((raised : Error) × (outcome ≡ err raised))
  Result-cases (err raised) = inr (raised, refl)
  Result-cases (ok value) = inl (value, refl)

  -- Two calls in sequence that return: what the first one gave.
  pub first_returned :
      {B : Type 0} (first : Result A) (next : A → Result B) {last : B}
      → (first >>= next) ≡ ok last
      → (value : A) × (first ≡ ok value) × (next value ≡ ok last)
  first_returned (err raised) next returned = absurd (cc)
  first_returned (ok value) next returned = (value, refl, returned)

  -- A guard that let the call go on.
  pub guard_passed :
      (fails : Bool) (raised : Error) (rest : Result A) {value : A}
      → (if fails then err raised else rest) ≡ ok value
      → rest ≡ ok value
  guard_passed false raised rest returned = returned
  guard_passed true raised rest returned = absurd (cc)
