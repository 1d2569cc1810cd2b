-- ===== src/TerminalReport/Paired.antt =====
-- tools/terminal_bench_report.py: `paired_statistics`.
use telar.Statistics.{maximum, minimum, percentile, median}
use telar.TerminalReport.Runs.{as_report, raised, ReportError, Quantiles, Measured}
use telar.Number.{Number}
use telar.Prelude.{
  get_elem?, ℕ, Bool, true, false, not, ◌&&◌, Option, none, some, List, [], ◌∷◌, map, select,
  length, any, somes, ltb, ◌==◌, if◌then◌else◌,
}
use telar.Prelude.Int.{ltb_ℤ, eq_ℤ, ℤ}
use telar.Prelude.Result.{value_error, key_error, Result, ok, ◌>>=◌, or_raise}

-- The functions of `math`, `statistics` and `random` that the report calls; `draws` holds the
-- indices that the seeded generator gives for a number of rounds, one list for each of the
-- resamplings.
pub record Maths (n : Number) : Type 0 where
  pub log : n.Num → n.Num
  pub exp : n.Num → n.Num
  pub mean : List n.Num → n.Num
  pub draws : ℕ → List (List ℕ)

-- `sorted(set(rounds))`
unfoldable pub insert_round : ℤ → List ℤ → List ℤ
insert_round a [] = a ∷ []
insert_round a (b ∷ rounds) =
    let later = b ∷ insert_round a rounds in
    if eq_ℤ a b then b ∷ rounds else if ltb_ℤ a b then a ∷ b ∷ rounds else later

unfoldable pub sorted_rounds : List ℤ → List ℤ
unfolding insert_round
sorted_rounds [] = []
sorted_rounds (a ∷ rounds) = insert_round a (sorted_rounds rounds)

abbrev pub is_round : List ℤ → ℤ → Bool
is_round rounds a = any (eq_ℤ a) rounds

module _ (n : Number) (is_finite : n.Num → Bool) where
  open n use {Num, of_nat, add, sub, div, lt}

  abbrev pub Runs : Type 0
  Runs = List (Measured n is_finite)

  abbrev pub rounds_of : Runs → List ℤ
  rounds_of runs = map (λ m. m.identity.round) runs

  -- The run of a round; of several with one round the last stands in the dictionary.
  unfoldable pub run_of : ℤ → Runs → Option (Measured n is_finite)
  run_of round [] = none
  run_of round (m ∷ runs) = elim (run_of round runs) [
    | some later ↦ some later
    | none ↦ if eq_ℤ m.identity.round round then some m else none
  ]

  -- `[rounds[index]['summary'][name] for index in paired]`
  unfoldable pub figures :
      (Quantiles n is_finite → Num) → Runs → List ℤ → Result ReportError (List Num)
  unfolding run_of
  figures read runs [] = ok []
  figures read runs (round ∷ rounds) = or_raise (run_of round runs) (raised key_error) >>= λ m.
      figures read runs rounds >>= λ rest. ok (read m.summary ∷ rest)

  unfoldable pub zip_with : (Num → Num → Num) → List Num → List Num → List Num
  zip_with f [] ys = []
  zip_with f (x ∷ xs) [] = []
  zip_with f (x ∷ xs) (y ∷ ys) = f x y ∷ zip_with f xs ys

  -- `sum` adds from the left.
  abbrev sum_from : Num → List Num → Num
  sum_from total [] = total
  sum_from total (x ∷ xs) = sum_from (add total x) xs

  abbrev sum_of : List Num → Num
  sum_of xs = sum_from (of_nat 0) xs

  abbrev all_positive : List Num → Bool
  all_positive [] = true
  all_positive (x ∷ xs) = lt (of_nat 0) x && all_positive xs

  pub record Comparison : Type 0 where
    pub deltas : List Num
    pub mean_delta : Num
    pub median_delta : Num
    pub least_delta : Num
    pub greatest_delta : Num
    pub ratio : Option Num
    pub delta_interval : Option (Num × Num)
    pub ratio_interval : Option (Num × Num)

  pub record Pairing : Type 0 where
    pub rounds : List ℤ
    pub unpaired_reference : List ℤ
    pub unpaired_candidate : List ℤ
    pub p50 : Option Comparison
    pub p95 : Option Comparison

  module _ (maths : Maths n) where
    open maths use {log, exp, mean, draws}

    -- `sum(values[index] for index in indices) / len(indices)`
    abbrev pub resampled : List Num → List ℕ → Num
    resampled values indices =
        div (sum_of (somes (map (get_elem? values) indices))) (of_nat (length indices))

    unfoldable pub interval : List Num → Result ReportError (Num × Num)
    interval values = as_report (percentile n values (div (of_nat 25) (of_nat 1000))) >>= λ low.
        as_report (percentile n values (div (of_nat 975) (of_nat 1000))) >>= λ high. ok (low, high)

    -- The intervals of the differences and, where there are any, of the ratios.
    unfoldable pub drawn_intervals :
        List Num → Option (List Num) → Result ReportError (Option (Num × Num) × Option (Num × Num))
    unfolding interval
    drawn_intervals differences none =
        interval (map (resampled differences) (draws (length differences))) >>= λ delta.
        ok (some delta, none)
    drawn_intervals differences (some ratios) =
        interval (map (resampled differences) (draws (length differences))) >>= λ delta.
        interval (map (λ d. exp (resampled ratios d)) (draws (length differences))) >>= λ ratio.
        ok (some delta, some ratio)

    -- The intervals, where at least two rounds are paired.
    unfoldable pub intervals :
        List Num → Option (List Num) → Result ReportError (Option (Num × Num) × Option (Num × Num))
    unfolding drawn_intervals
    intervals differences logs =
        if ltb (length differences) 2 then ok (none, none) else drawn_intervals differences logs

    abbrev pub log_ratios : List Num → List Num → Option (List Num)
    log_ratios baseline measured =
        if all_positive baseline && all_positive measured
        then some (zip_with (λ before after. log (div after before)) baseline measured)
        else none

    abbrev pub ratio_of : Option (List Num) → Option Num
    ratio_of none = none
    ratio_of (some ratios) = some (exp (mean ratios))

    unfoldable pub compare : List Num → List Num → Result ReportError Comparison
    unfolding zip_with intervals
    compare baseline measured =
        let differences = zip_with (λ before after. sub after before) baseline measured in
        let logs = log_ratios baseline measured in
        or_raise (median n differences) (raised value_error) >>= λ middle.
        or_raise (minimum n differences) (raised value_error) >>= λ least.
        or_raise (maximum n differences) (raised value_error) >>= λ most.
        intervals differences logs >>= λ found. ok (record {
          deltas = differences;
          mean_delta = mean differences;
          median_delta = middle;
          least_delta = least;
          greatest_delta = most;
          ratio = ratio_of logs;
          delta_interval = found.0;
          ratio_interval = found.1;
        })

    unfoldable pub quantile_entry :
        (Quantiles n is_finite → Num) → Runs → Runs → List ℤ → Result ReportError Comparison
    unfolding figures compare
    quantile_entry read reference candidate paired = figures read reference paired >>= λ baseline.
        figures read candidate paired >>= λ measured. compare baseline measured

    abbrev pub common : Runs → Runs → List ℤ
    common reference candidate =
        select (is_round (rounds_of candidate)) (sorted_rounds (rounds_of reference))

    abbrev pub only : Runs → Runs → List ℤ
    only runs others =
        select (λ a. not (is_round (rounds_of others) a)) (sorted_rounds (rounds_of runs))

    unfoldable pub pairing_of : Runs → Runs → Option Comparison → Option Comparison → Pairing
    pairing_of reference candidate p50 p95 = record {
      rounds = common reference candidate;
      unpaired_reference = only reference candidate;
      unpaired_candidate = only candidate reference;
      p50 = p50;
      p95 = p95;
    }

    unfoldable pub paired_statistics : Runs → Runs → Result ReportError Pairing
    unfolding sorted_rounds quantile_entry pairing_of
    paired_statistics reference candidate = elim (length (common reference candidate) == 0) [
      | true ↦ ok (pairing_of reference candidate none none)
      | false ↦
          quantile_entry (λ q. q.p50_ms) reference candidate (common reference candidate) >>= λ p50.
          quantile_entry (λ q. q.p95_ms) reference candidate (common reference candidate) >>= λ p95.
          ok (pairing_of reference candidate (some p50) (some p95))
    ]
