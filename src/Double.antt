-- ===== src/Double.antt =====
-- The C++ `double` (and `float`) arithmetic that the program decides by. It is not code of the
-- repository: a parameter of the modules that use it, with no law assumed but where a module says so.
use qw_fnfer_xpu.Base.{
  ℕ, Bool, true, false, not, ◌||◌, ◌≡◌, arith, ◌+◌, ◌-◌, ◌*◌, ◌/◌, ltb, leb, ◌==◌,
}

pub record Double : Type 1 where
  pub F : Type 0
  pub num : ℕ → F
  pub plus : F → F → F
  pub minus : F → F → F
  pub times : F → F → F
  pub over : F → F → F
  pub less : F → F → Bool
  pub le : F → F → Bool
  pub same : F → F → Bool

-- What the comparisons of doubles that are no NaN satisfy.
pub record IsOrdered (c : Double) : Type 0 where
  pub less_asym : (u v : c.F) → c.less u v ≡ true → c.less v u ≡ false
  pub less_skip : (u v w : c.F) → c.less u v ≡ false → c.less v w ≡ false → c.less u w ≡ false
  pub same_less : (u v : c.F) → c.same u v ≡ not (c.less u v || c.less v u)

-- Numbers of thousandths, for runs at concrete values.
abbrev pub milli : Double
milli = record {
  F = ℕ;
  num = λ n. n * 1000;
  plus = ◌+◌;
  minus = ◌-◌;
  times = λ a b. a * b / 1000;
  over = λ a b. a * 1000 / b;
  less = ltb;
  le = leb;
  same = ◌==◌;
}

pub milli-IsOrdered : IsOrdered milli
milli-IsOrdered = record {
  less_asym = λ u v h. ground arith;
  less_skip = λ u v w h k. ground arith;
  same_less = λ u v. ground arith;
}
