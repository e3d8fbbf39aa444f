-- ===== src/Double.antt =====
-- The C++ type `double` as far as the program uses it. The processor's arithmetic is not code of the
-- repository, so the type and its operations are a parameter of the modules that compute with them.
use tafrr.Prelude.{Bool}
use tafrr.Prelude.Int.{ℤ}

pub record DoubleOps : Type 1 where
  pub Double : Type 0
  pub add : Double → Double → Double
  pub sub : Double → Double → Double
  pub mul : Double → Double → Double
  pub div : Double → Double → Double
  -- `-a`
  pub neg : Double → Double
  -- `a > b`
  pub gtb : Double → Double → Bool
  -- `a == b`
  pub eqb : Double → Double → Bool
  -- `pow(exp(1), x)`
  pub exp : Double → Double
  -- `std::log`
  pub log : Double → Double
  -- The conversion of an integer, and the casts `(long) x` and `(int) x`.
  pub of_int : ℤ → Double
  pub to_int : Double → ℤ
  pub to_int32 : Double → ℤ
  -- `-1.0 / 0.0`
  pub neg_inf : Double
