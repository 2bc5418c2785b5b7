-- ===== src/Double/Fixed.antt =====
-- Numbers on which the development runs: tenths from -10 up, kept as the distance from -10.
-- Sums and products below the range stop at its end, as overflow stops at minus infinity.
use Prim.Native.String.{◌++◌ as str_append}
use zmdp.Prelude.{ℕ, zero, suc, ◌+◌, ◌-◌, ◌*◌, ◌/◌, ◌≤◌, String, arith, ltb, if◌then◌else◌}
use zmdp.Double.{Double, IsMonotone}

abbrev pub unary : ℕ → String
unary zero = ","
unary (suc n) = str_append "x" (unary n)

abbrev pub fixed_mul : ℕ → ℕ → ℕ
fixed_mul a b = (((a - 100) * b + 1000) - (a - 100) * 100) / 10

abbrev pub fixed_format : ℕ → ℕ → String
fixed_format i x = str_append (unary i) (unary x)

instance abbrev pub fixed : Double
fixed = record {
  Num = ℕ;
  key = λ n. n;
  nought = 100;
  add = λ a b. a + b - 100;
  sub = λ a b. a + 100 - b;
  mul = λ a b. fixed_mul a b;
  div = λ a b. if ltb 100 b then 100 + (a - 100) * 10 / (b - 100) else 100;
  fabs = λ a. if ltb a 100 then 200 - a else a;
  neg = λ a. 200 - a;
  log = λ a. a;
  exp = λ a. a;
  pow = λ a n. a;
  pow_neg = λ a n. 110 + n;
  of_ℕ = λ n. 100 + 10 * n;
  to_ℕ = λ a. (a - 100) / 10;
  minus_one = 90;
  minus_huge = 0;
  plus_huge = 1000;
  zero_eps = 100;
  sparse_eps = 100;
  bounds_eps = 101;
  corner_eps = 100;
  format = λ i x. fixed_format i x;
}

fixed_mul_mono : (c a b : ℕ) → a ≤ b → fixed_mul c a ≤ fixed_mul c b
fixed_mul_mono c a b h = grind arith

pub fixed-IsMonotone : IsMonotone
fixed-IsMonotone = record {
  add_mono = λ a b x y h k. omega arith;
  sub_mono = λ a b x y h k. omega arith;
  mul_mono = λ c a b _ h. fixed_mul_mono c a b h;
  zero_eps_nonneg = omega arith;
}
