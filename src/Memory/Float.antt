-- ===== src/Memory/Float.antt =====
-- The floats of the utilization of a page, as an interface: the program computes with them and does
-- not implement them.
pub mod Fixed
use bsqgc.Prelude.{ℕ, Bool, true, false, ◌≡◌}

-- `dec m d` is the literal m / 10^d. `D` is the double, to which a float is promoted.
pub record FloatOps : Type 1 where
  pub F : Type 0
  pub D : Type 0
  pub of_nat : ℕ → F
  pub dec : ℕ → ℕ → F
  pub add : F → F → F
  pub sub : F → F → F
  pub div : F → F → F
  pub le : F → F → Bool
  pub lt : F → F → Bool
  pub promote : F → D
  pub double_dec : ℕ → ℕ → D
  pub double_neg : D → D
  pub double_le : D → D → Bool
  pub double_lt : D → D → Bool
  pub double_add : D → D → D
  pub double_div : D → D → D
  pub double_of_nat : ℕ → D

-- What IEEE 754 says of `<`, with NaN among the operands.
pub record IsOrder (fl : FloatOps) : Type 0 where
  pub irreflexive : (a : fl.F) → fl.lt a a ≡ false
  pub transitive : (a b c : fl.F) → fl.lt a b ≡ true → fl.lt b c ≡ true → fl.lt a c ≡ true
