-- ===== src/Base/Results.antt =====
-- The result of a piece of C code: a value, the end of the process by `exit`, or undefined
-- behaviour (an access out of bounds, a NULL that is read through).
use Prim.Native.Nat.{ℕ}

pub data Result {ℓ} (A : Type ℓ) : Type ℓ where
  ok : A → Result A
  exits : ℕ → Result A
  fault : Result A

infixl 5 ◌>>=◌
abbrev pub ◌>>=◌ {ℓ κ} : {A : Type ℓ} {B : Type κ} → Result A → (A → Result B) → Result B
ok a >>= f = f a
exits n >>= f = exits n
fault >>= f = fault

abbrev pub exit_success : ℕ
exit_success = 0

abbrev pub exit_failure : ℕ
exit_failure = 1
