-- ===== src/Number.antt =====
-- Python's numbers. Quotients and seconds are floats, which are a parameter: a type with the
-- operations that the tools apply to it.
use telar.Prelude.{ℕ, Bool, true, false, ◌≡◌}
use telar.Prelude.Int.{ℤ}

pub record Number : Type 1 where
  pub Num : Type 0
  pub of_nat : ℕ → Num
  pub of_int : ℤ → Num
  pub add : Num → Num → Num
  pub sub : Num → Num → Num
  pub mul : Num → Num → Num
  pub div : Num → Num → Num
  pub lt : Num → Num → Bool
  pub le : Num → Num → Bool
  pub eq : Num → Num → Bool
  -- Neither NaN nor an infinity.
  pub is_finite : Num → Bool
  -- `int` of a number that is finite and not negative
  pub trunc : Num → ℕ

-- What comparisons of numbers other than NaN satisfy.
pub record IsOrdered (n : Number) : Type 0 where
  pub asymm : (a b : n.Num) → n.lt a b ≡ true → n.lt b a ≡ false
  pub eq_excludes : (a b : n.Num) → n.eq a b ≡ true → n.lt a b ≡ false
  pub eq_symm : (a b : n.Num) → n.eq a b ≡ true → n.eq b a ≡ true
  pub total : (a b : n.Num) → n.lt a b ≡ false → n.lt b a ≡ false → n.eq a b ≡ true
  pub eq_refl : (a : n.Num) → n.eq a a ≡ true
  pub le_trans : (a b c : n.Num) → n.lt b a ≡ false → n.lt c b ≡ false → n.lt c a ≡ false
