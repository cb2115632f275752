-- ===== src/Base/Runs.antt =====
-- What a run of C code comes to: a result, a failed `ASSERT` or `TODO` (assert.c then halts the
-- processor for ever), an access that the language leaves undefined, or a loop that has not come
-- to its end within the rounds that the model grants it.
use mathlib.Core.Bool.{Bool, true, false}
use mathlib.Core.Option.{Option, none, some}

pub data Outcome {ℓ} (A : Type ℓ) : Type ℓ where
  done : A → Outcome A
  halted fault out_of_fuel : Outcome A

infixl 5 ◌>>=◌ ◌>>◌
abbrev pub ◌>>=◌ {ℓ κ} : {A : Type ℓ} {B : Type κ} → Outcome A → (A → Outcome B) → Outcome B
done a >>= k = k a
halted >>= k = halted
fault >>= k = fault
out_of_fuel >>= k = out_of_fuel

abbrev pub ◌>>◌ {ℓ} : {B : Type ℓ} → Outcome (Unit {0}) → Outcome B → Outcome B
m >> k = m >>= λ _. k

-- The macro `ASSERT`.
abbrev pub assert : Bool → Outcome (Unit {0})
assert true = done tt
assert false = halted

-- A read that must be in range.
abbrev pub or_fault {ℓ} : {A : Type ℓ} → Option A → Outcome A
or_fault none = fault
or_fault (some a) = done a
