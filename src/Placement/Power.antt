-- ===== src/Placement/Power.antt =====
-- `power_of_two`
pub mod Exact
use Prim.Native.Nat.{bit_and}
use telar.Prelude.{ℕ, ◌-◌, Bool, false, ◌&&◌, ltb, ◌==◌}
use telar.Prelude.Int.{ℤ, pos, negsuc}

-- `value > 0 and value & (value - 1) == 0`
unfoldable pub power_of_two : ℤ → Bool
power_of_two (pos value) = ltb 0 value && (bit_and value (value - 1) == 0)
power_of_two (negsuc n) = false
