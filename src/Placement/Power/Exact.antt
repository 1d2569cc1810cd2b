-- ===== src/Placement/Power/Exact.antt =====
-- `power_of_two` accepts the powers of two and nothing else.
use Prim.Native.Nat.{digits, bit_and-bitwise}
use mathlib.Core.Path.{ap₂}
use native.Mathlib.Nat.{pow-suc}
use native.Mathlib.Decide.{dec_lt}
use telar.Prelude.{
  ℕ, zero, suc, ◌+◌, ◌*◌, ◌/◌, ◌%◌, ◌^◌, ◌≤◌, min, ◌≡◌, sym, refl, ap, ◌↔◌, true, arith,
}
use telar.Prelude.Int.{ℤ, pos, negsuc, pos_part}
use telar.Placement.Power.{power_of_two}

-- The digits that two numbers share, of which the first has at most `limit`.
abbrev shared : ℕ → ℕ → ℕ → ℕ
shared limit x y = digits (λ digit. zero) min limit x y

shared-zero : (limit y : ℕ) → shared limit zero y ≡ 0
shared-zero zero y = refl
shared-zero (suc limit) y = refl

shared_self : (limit x : ℕ) → x ≤ limit → shared limit x x ≡ x
shared_self limit zero fits = shared-zero limit zero
shared_self zero (suc x) fits = absurd (omega arith)
shared_self (suc limit) (suc x) fits = omega (arith, shared_self limit (suc x / 2) (omega arith))

-- An even number shares with its predecessor what the halves share.
shared_even :
    (limit w x : ℕ) → suc x ≡ 2 * suc w → shared (suc limit) (suc x) x ≡ 2 * shared limit (suc w) w
shared_even limit w x twice =
    let halves : shared limit (suc x / 2) (x / 2) ≡ shared limit (suc w) w =
      ap₂ (shared limit) (omega arith) (omega arith) in
    omega (arith, halves)

-- An odd number shares with its predecessor all digits but the last.
shared_odd : (limit x : ℕ) → suc x ≤ suc limit → suc x % 2 ≡ 1 → shared (suc limit) (suc x) x ≡ x
shared_odd limit x fits odd =
    let halves : shared limit (suc x / 2) (x / 2) ≡ shared limit (suc x / 2) (suc x / 2) =
      ap (shared limit (suc x / 2)) (omega arith) in
    omega (arith, halves, shared_self limit (suc x / 2) (omega arith))

pow-pred : (k : ℕ) → (w : ℕ) × (2 ^ k ≡ suc w)
pow-pred zero = (0, refl)
pow-pred (suc k) = let (w, e) = pow-pred k in (2 * w + 1, omega (arith, e, pow-suc 2 k))

shared-pow : (limit k x : ℕ) → suc x ≤ limit → suc x ≡ 2 ^ k → shared limit (suc x) x ≡ 0
shared-pow zero k x fits e = absurd (omega arith)
shared-pow (suc limit) zero x fits e = omega (arith, e, shared_odd limit x fits (omega (arith, e)))
shared-pow (suc limit) (suc k) x fits e =
    let (w, below) = pow-pred k in
    let twice : suc x ≡ 2 * suc w = omega (arith, e, below, pow-suc 2 k) in
    omega (arith, shared_even limit w x twice, shared-pow limit k w (omega arith) (sym below))

pow-shared : (limit x : ℕ) → suc x ≤ limit → shared limit (suc x) x ≡ 0 → (k : ℕ) × (suc x ≡ 2 ^ k)
pow-shared zero x fits apart = absurd (omega arith)
pow-shared (suc limit) x fits apart = elim (dec_lt 0 (suc x % 2)) [
  | yes odd ↦ (0, omega (arith, apart, shared_odd limit x fits (omega arith)))
  | no even ↦
      let w : ℕ = x / 2 in
      let twice : suc x ≡ 2 * suc w = omega arith in
      let (k, e) =
        pow-shared limit w (omega arith) (omega (arith, apart, shared_even limit w x twice)) in
      (suc k, omega (arith, twice, e, pow-suc 2 k))
]

-- The stride and the window pass the test exactly when they are powers of two; no negative number
-- does.
pub power_of_two_iff : (value : ℤ) → (power_of_two value ≡ true) ↔ ((k : ℕ) × (value ≡ pos (2 ^ k)))
unfolding power_of_two
power_of_two_iff (negsuc n) = (λ h. cc, λ h. cc h.1)
power_of_two_iff (pos zero) =
    (λ h. cc, λ h. absurd (omega (arith, ap pos_part h.1, (pow-pred h.0).1)))
power_of_two_iff (pos (suc x)) = (
  λ h.
      let (k, e) = pow-shared (suc x) x (omega arith) (ground (arith, bit_and-bitwise (suc x) x)) in
      (k, ap pos e),
  λ h.
      let e : suc x ≡ 2 ^ h.0 = ap pos_part h.1 in
      ground (arith, bit_and-bitwise (suc x) x, shared-pow (suc x) h.0 x (omega arith) e),
)
