-- ===== src/Memory/Float/Fixed.antt =====
-- Millionths as the floats of a run. Differences stop at 0.
use bsqgc.Prelude.{ℕ, ◌+◌, ◌-◌, ◌*◌, ◌/◌, ◌^◌, leb, ltb}
use bsqgc.Memory.Float.{FloatOps}

abbrev pub fixed : FloatOps
fixed = record {
  F = ℕ;
  D = ℕ;
  of_nat = λ n. n * 1_000_000;
  dec = λ m d. m * 1_000_000 / 10 ^ d;
  add = λ a b. a + b;
  sub = λ a b. a - b;
  div = λ a b. a * 1_000_000 / b;
  le = λ a b. leb a b;
  lt = λ a b. ltb a b;
  promote = λ a. a;
  double_dec = λ m d. m * 1_000_000 / 10 ^ d;
  double_neg = λ a. 0;
  double_le = λ a b. leb a b;
  double_lt = λ a b. ltb a b;
  double_add = λ a b. a + b;
  double_div = λ a b. a * 1_000_000 / b;
  double_of_nat = λ n. n * 1_000_000;
}
