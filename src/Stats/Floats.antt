-- ===== src/Stats/Floats.antt =====
-- Floating-point numbers, as stats.c uses them: the operations of the machine and of the C library
-- on the type double, and the reading of a float or a double from its bits.
use autolock.Base.{ℕ, ℤ, Bool, List}

pub record Floats (D : Type 0) : Type 0 where
  pub add : D → D → D
  pub sub : D → D → D
  pub mul : D → D → D
  pub div : D → D → D
  pub eq : D → D → Bool
  -- CAST(double, ...) of an unsigned and of a signed number, and CAST(uint64_t, ...).
  pub of_nat : ℕ → D
  pub of_int : ℤ → D
  pub to_nat : D → ℕ
  pub of_float_bits : ℕ → D
  pub of_double_bits : ℕ → D
  -- log, exp and sqrt, which stats.c only calls where WITH_MATH is defined.
  pub with_math : Bool
  pub log : D → D
  pub exp : D → D
  pub sqrt : D → D
  -- generic_sort, by `<`.
  pub sort : List D → List D
