-- ===== src/Base/Commands.antt =====
-- Code that reads and changes a state: a command takes the state and comes to a result with the new
-- state, or to one of the other outcomes.
use mathlib.Core.Bool.{Bool, true, false}
use mimik.Base.Runs.{Outcome, done, halted, fault, out_of_fuel}

abbrev pub Command : Type 0 → Type 0 → Type 0
Command S A = S → Outcome (A × S)

abbrev pub and_then : {S A B : Type 0} → Outcome (A × S) → (A → Command S B) → Outcome (B × S)
and_then (done (a, s)) k = k a s
and_then halted k = halted
and_then fault k = fault
and_then out_of_fuel k = out_of_fuel

infixl 5 ◌>>=◌ ◌>>◌
abbrev pub ◌>>=◌ : {S A B : Type 0} → Command S A → (A → Command S B) → Command S B
m >>= k = λ s. and_then (m s) k

abbrev pub ◌>>◌ : {S B : Type 0} → Command S (Unit {0}) → Command S B → Command S B
m >> k = m >>= λ _. k

abbrev pub pure : {S A : Type 0} → A → Command S A
pure a s = done (a, s)

-- The macro `ASSERT`, and the macro `TODO`.
abbrev pub check : {S : Type 0} → Bool → Command S (Unit {0})
check true s = done (tt, s)
check false s = halted

abbrev pub todo : {S A : Type 0} → Command S A
todo s = halted

abbrev pub undefined : {S A : Type 0} → Command S A
undefined s = fault

abbrev pub modify : {S : Type 0} → (S → S) → Command S (Unit {0})
modify f s = done (tt, f s)

abbrev pub when : {S : Type 0} → Bool → Command S (Unit {0}) → Command S (Unit {0})
when true m s = m s
when false m s = done (tt, s)
