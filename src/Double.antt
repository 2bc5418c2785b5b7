-- ===== src/Double.antt =====
-- The type `double` of the program, with the operations and constants that the code uses.
-- The numbers are the doubles that are not NaN. They are finitely many and in a linear order (the
-- two zeros at one place), so a number `key` gives the place of each; `a < b` compares the keys.
pub mod Fixed
use zmdp.Prelude.{ℕ, ◌≤◌, ◌<◌, ◌≡◌, Bool, String, arith, ltb, if◌then◌else◌, ◌==◌}

pub record Double : Type 1 where
  pub Num : Type 0
  pub key : Num → ℕ
  pub nought : Num
  pub add : Num → Num → Num
  pub sub : Num → Num → Num
  pub mul : Num → Num → Num
  pub div : Num → Num → Num
  pub fabs : Num → Num
  pub neg : Num → Num
  pub log : Num → Num
  pub exp : Num → Num
  pub pow : Num → ℕ → Num
  pub pow_neg : Num → ℕ → Num
  pub of_ℕ : ℕ → Num
  pub to_ℕ : Num → ℕ
  pub minus_one : Num
  pub minus_huge : Num
  pub plus_huge : Num
  pub zero_eps : Num
  pub sparse_eps : Num
  pub bounds_eps : Num
  pub corner_eps : Num
  pub format : ℕ → Num → String

module _ ⦃d : Double⦄ where
  open d use {Num, key, add, sub, mul, nought, zero_eps}

  -- `a < b`
  abbrev pub lt : Num → Num → Bool
  lt a b = ltb (key a) (key b)

  -- `a == b`
  abbrev pub eq : Num → Num → Bool
  eq a b = key a == key b

  -- `std::max` and `std::min`
  abbrev pub max : Num → Num → Num
  max a b = if lt a b then b else a

  abbrev pub min : Num → Num → Num
  min a b = if lt b a then b else a

  infix 4 ◌≼◌
  abbrev pub ◌≼◌ : Num → Num → Type 0
  a ≼ b = key a ≤ key b

  -- Rounding is monotone, so sums and products by a number that is not negative are.
  pub record IsMonotone : Type 0 where
    pub add_mono : (a b x y : Num) → a ≼ b → x ≼ y → add a x ≼ add b y
    pub mul_mono : (c a b : Num) → nought ≼ c → a ≼ b → mul c a ≼ mul c b
    pub sub_mono : (a b x y : Num) → a ≼ b → y ≼ x → sub a x ≼ sub b y
    pub zero_eps_nonneg : nought ≼ zero_eps

  pub max_bounds : (a b : Num) → (a ≼ max a b) × (b ≼ max a b)
  max_bounds a b = ground arith

  pub min_bounds : (a b : Num) → (min a b ≼ a) × (min a b ≼ b)
  min_bounds a b = ground arith

  pub le-min : (x a b : Num) → x ≼ a → x ≼ b → x ≼ min a b
  le-min x a b h k = ground arith

  pub max-le : (x a b : Num) → a ≼ x → b ≼ x → max a b ≼ x
  max-le x a b h k = ground arith
