-- ===== src/Statistics.antt =====
-- What the tools use of `sorted`, `min`, `max` and `statistics`, over the numbers of `Number`, and
-- `percentile` of tools/echo_latency.py and tools/load_latency.py.
pub mod Sorting
use telar.Prelude.{
  ℕ, ◌+◌, ◌-◌, ◌/◌, ◌%◌, min, Bool, true, false, Option, none, some, List, [], ◌∷◌, length,
  get_elem?, ◌==◌, if◌then◌else◌,
}
use telar.Prelude.Result.{Result, ok, err, Exception, index_error, or_raise, ◌>>=◌}
use telar.Number.{Number}

module _ (n : Number) where
  open n use {Num, of_nat, add, sub, mul, div, lt, trunc}

  insert : Num → List Num → List Num
  insert x [] = x ∷ []
  insert x (y ∷ ys) = if lt y x then y ∷ insert x ys else x ∷ y ∷ ys

  -- `sorted`, which is stable: of equal values the earlier one stays first.
  unfoldable pub sorted : List Num → List Num
  unfolding insert
  sorted [] = []
  sorted (x ∷ xs) = insert x (sorted xs)

  least : Num → List Num → Num
  least m [] = m
  least m (x ∷ xs) = least (if lt x m then x else m) xs

  greatest : Num → List Num → Num
  greatest m [] = m
  greatest m (x ∷ xs) = greatest (if lt m x then x else m) xs

  -- `min(xs)`; `none` stands for its error on an empty list.
  unfoldable pub minimum : List Num → Option Num
  unfolding least
  minimum [] = none
  minimum (x ∷ xs) = some (least x xs)

  unfoldable pub maximum : List Num → Option Num
  unfolding greatest
  maximum [] = none
  maximum (x ∷ xs) = some (greatest x xs)

  midpoint : Option Num → Option Num → Option Num
  midpoint (some a) (some b) = some (div (add a b) (of_nat 2))
  midpoint _ _ = none

  -- `statistics.median`; `none` stands for its error on an empty list.
  unfoldable pub median : List Num → Option Num
  unfolding sorted midpoint
  median xs =
      let s = sorted xs in
      let half = length s / 2 in
      if length s % 2 == 1
      then get_elem? s half
      else midpoint (get_elem? s (half - 1)) (get_elem? s half)

  -- Linear interpolation between two neighbours of the sorted values.
  unfoldable pub percentile : List Num → Num → Result Exception Num
  unfolding sorted
  percentile values p =
      let s = sorted values in
      if length s == 0 then err index_error else do
        let k = mul (of_nat (length s - 1)) p
        let lo = trunc k
        let hi = min (lo + 1) (length s - 1)
        at_lo ← or_raise (get_elem? s lo) index_error
        at_hi ← or_raise (get_elem? s hi) index_error
        ok (add at_lo (mul (sub at_hi at_lo) (sub k (of_nat lo))))
