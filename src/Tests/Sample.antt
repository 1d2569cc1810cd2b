-- ===== src/Tests/Sample.antt =====
-- Integers as the number type, and a character table that knows ASCII only.
use telar.Prelude.{true, none, false, arith, ◌/◌, ◌+◌}
use telar.Prelude.Int.{ℤ, pos, negsuc, ◌+ℤ◌, ◌-ℤ◌, ◌*ℤ◌, ltb_ℤ, leb_ℤ, eq_ℤ, pos_part, sub_ℕ}
use telar.Number.{Number, IsOrdered}
use telar.Text.{Unicode}

-- Division rounds toward zero.
abbrev quotient : ℤ → ℤ → ℤ
quotient (pos a) (pos b) = pos (a / b)
quotient (pos a) (negsuc b) = sub_ℕ 0 (a / (b + 1))
quotient (negsuc a) (pos b) = sub_ℕ 0 ((a + 1) / b)
quotient (negsuc a) (negsuc b) = pos ((a + 1) / (b + 1))

abbrev pub whole : Number
whole = record {
  Num = ℤ;
  of_nat = pos;
  of_int = λ a. a;
  add = λ a b. a +ℤ b;
  sub = λ a b. a -ℤ b;
  mul = λ a b. a *ℤ b;
  div = quotient;
  lt = ltb_ℤ;
  le = leb_ℤ;
  eq = eq_ℤ;
  is_finite = λ x. true;
  trunc = pos_part;
}

pub whole-IsOrdered : IsOrdered whole
whole-IsOrdered = record {
  asymm = λ a b h. ground arith;
  eq_excludes = λ a b h. ground arith;
  eq_symm = λ a b h. ground arith;
  total = λ a b h k. ground arith;
  eq_refl = λ a. ground arith;
  le_trans = λ a b c h k. ground arith;
}

abbrev pub ascii : Unicode
ascii = record { alnum = λ c. false; digit = λ c. none; space = λ c. false }
