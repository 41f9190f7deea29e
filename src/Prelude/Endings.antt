-- ===== src/Prelude/Endings.antt =====
-- How a call ends: with a value, with a failed Assert (which aborts the process), or, where a loop is
-- given fuel, not within that fuel.
use mathlib.Core.Bool.{Bool, true, false}

pub data Outcome {ℓ} (A : Type ℓ) : Type ℓ where
  ok : A → Outcome A
  aborted : Outcome A
  running : Outcome A

infixl 5 ◌>>=◌ ◌>>◌
abbrev pub ◌>>=◌ {ℓ κ} : {A : Type ℓ} {B : Type κ} → Outcome A → (A → Outcome B) → Outcome B
ok a >>= f = f a
aborted >>= f = aborted
running >>= f = running

abbrev pub ◌>>◌ {ℓ} : {B : Type ℓ} → Outcome (Unit {0}) → Outcome B → Outcome B
m >> k = m >>= λ _. k

-- The Assert of Assert.h.
abbrev pub check : Bool → Outcome (Unit {0})
check true = ok tt
check false = aborted
