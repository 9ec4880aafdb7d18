-- ===== src/Prelude/Outcome.antt =====
-- How a call ends: `ok`, the runtime's `die` (or `exit`), or a fault, which is a NULL
-- dereference or an `assert` that fails.

pub data Outcome {ℓ} (A : Type ℓ) : Type ℓ where
  ok : A → Outcome A
  die : Outcome A
  fault : Outcome A

infixl 5 ◌>>=◌
abbrev pub ◌>>=◌ {ℓ κ} : {A : Type ℓ} {B : Type κ} → Outcome A → (A → Outcome B) → Outcome B
ok a >>= f = f a
die >>= f = die
fault >>= f = fault
