-- ===== src/Placement/Paired.antt =====
-- `paired`: the statistics of each variant against the reference variant's run of the same round.
pub mod Counts
use telar.Prelude.{
  ℕ, ◌-◌, String, Bool, not, ◌&&◌, Option, none, some, List, [], ◌∷◌, map, select, somes, count_if,
  length, str_eq, if◌then◌else◌,
}
use telar.Prelude.Result.{Result, ok, Exception, key_error, or_raise, ◌>>=◌}
use telar.Number.{Number}
use telar.Statistics.{median, minimum, maximum}

-- A dictionary, in the order of insertion.
abbrev pub Dict : Type 0 → Type 0
Dict V = List (String × V)

abbrev pub lookup : {V : Type 0} → String → Dict V → Option V
lookup k [] = none
lookup k ((j, v) ∷ d) = if str_eq j k then some v else lookup k d

module _ (n : Number) where
  open n use {Num, of_nat, sub, mul, div, lt, eq}

  pub record Summary : Type 0 where
    pub runs : ℕ
    pub runs_not_counted : ℕ
    pub median_value : Option Num
    pub least_value : Option Num
    pub greatest_value : Option Num
    pub pairs : ℕ
    pub median_paired_change_pct : Option Num
    pub min_paired_change_pct : Option Num
    pub max_paired_change_pct : Option Num
    pub wins : ℕ
    pub losses : ℕ
    pub ties : ℕ

  -- `value is not None and against`: a missing or zero reference value makes no pair.
  truthy_pair : Option Num → Option Num → Option (Num × Num)
  truthy_pair (some value) (some against) =
      if eq against (of_nat 0) then none else some (value, against)
  truthy_pair (some value) none = none
  truthy_pair none against = none

  -- `zip` stops at the end of the shorter list.
  pairs_of : List (Option Num) → List (Option Num) → List (Num × Num)
  unfolding truthy_pair
  pairs_of [] base = []
  pairs_of (v ∷ vs) [] = []
  pairs_of (v ∷ vs) (a ∷ base) =
      let rest = pairs_of vs base in elim (truthy_pair v a) [ none ↦ rest | some p ↦ p ∷ rest ]

  -- `(value / against - 1) * 100`
  change : Num × Num → Num
  change (value, against) = mul (sub (div value against) (of_nat 1)) (of_nat 100)

  unfoldable pub summarize : List (Option Num) → List (Option Num) → Summary
  unfolding pairs_of change
  summarize values base =
      let present = somes values in
      let pairs = pairs_of values base in
      let changes = map change pairs in
      record {
        runs = length present;
        runs_not_counted = length values - length present;
        median_value = median n present;
        least_value = minimum n present;
        greatest_value = maximum n present;
        pairs = length pairs;
        median_paired_change_pct = median n changes;
        min_paired_change_pct = minimum n changes;
        max_paired_change_pct = maximum n changes;
        wins = count_if (λ p. lt p.0 p.1) pairs;
        losses = count_if (λ p. lt p.1 p.0) pairs;
        ties = count_if (λ p. eq p.0 p.1) pairs;
      }

  -- `series[reference]` raises where the reference is no variant.
  unfoldable pub paired : Dict (List (Option Num)) → String → Result Exception (Dict Summary)
  unfolding summarize
  paired series reference = do
    base ← or_raise (lookup reference series) key_error
    ok (map (λ row. (row.0, summarize row.1 base)) series)
