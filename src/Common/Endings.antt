-- ===== src/Common/Endings.antt =====
-- How a function that uses glog's `CHECK` ends.

-- `check_failed` is the abort by a failed `CHECK`; `undefined` is undefined behaviour.
pub data Outcome (A : Type 0) : Type 0 where
  done : A → Outcome A
  check_failed : Outcome A
  undefined : Outcome A

-- What follows runs when the function goes on.
infixl 5 ◌>>=◌
abbrev pub ◌>>=◌ : {A B : Type 0} → Outcome A → (A → Outcome B) → Outcome B
done a >>= f = f a
check_failed >>= f = check_failed
undefined >>= f = undefined
