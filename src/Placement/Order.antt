-- ===== src/Placement/Order.antt =====
-- `ordered`: the order of the variants in one round.
pub mod Positions
use telar.Prelude.{ℕ, ◌%◌, List, [], ◌∷◌, ◌++◌, reverse, length, take, drop, ◌==◌, if◌then◌else◌}
use telar.Prelude.Result.{Result, ok, err, Exception, zero_division}

module _ {A : Type 0} where
  rotate : ℕ → List A → List A
  rotate shift variants = drop shift variants ++ take shift variants

  -- Rotated by one place each round, and reversed in odd rounds. `%` by no variants raises.
  unfoldable pub ordered : List A → ℕ → Result Exception (List A)
  unfolding rotate
  ordered [] round_index = err zero_division
  ordered (v ∷ vs) round_index =
      let order = rotate (round_index % length (v ∷ vs)) (v ∷ vs) in
      ok (if round_index % 2 == 0 then order else reverse order)
