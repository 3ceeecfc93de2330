-- ===== src/Stations/Double.antt =====
-- Hard Disk and File IO/q1.c: all that the code does with a `double`.
use os_in_parts.Prelude.{ℕ, ◌+◌, ◌-◌, ◌*◌, ◌/◌, Bool, List, [], ◌∷◌, ltb}

-- The constants 0, `DBL_MAX` and `-DBL_MAX`, the order, a sum, a quotient by an `int`, and `atof`. No
-- law is asked of them: what is shown holds of the rounded arithmetic, in the order of the file.
pub record Double (W : Type 0) : Type 0 where
  pub nought : W
  pub dbl_max : W
  pub neg_dbl_max : W
  pub less : W → W → Bool
  pub add : W → W → W
  pub over : W → ℕ → W
  pub atof : List ℕ → W

-- Whole degrees from 0 to 1000, for the tests.
abbrev digits : ℕ → List ℕ → ℕ
digits n [] = n
digits n (c ∷ cs) = digits (n * 10 + c - b'0') cs

instance abbrev pub degrees : Double ℕ
degrees = record {
  nought = 0;
  dbl_max = 1000;
  neg_dbl_max = 0;
  less = ltb;
  add = λ a b. a + b;
  over = λ a n. a / n;
  atof = digits 0;
}
