-- ===== src/Placement/Derive.antt =====
-- `derive`: every paired statistic from the saved runs alone.
pub mod Cells
pub mod Complete
use telar.Prelude.{
  ℕ, zero, suc, String, Bool, true, false, not, Option, none, some, List, [], ◌∷◌, ◌++◌, map, any,
  length, set, replicate, ltb, str_eq, if◌then◌else◌,
}
use telar.Prelude.Int.{ℤ, pos_part}
use telar.Prelude.Result.{
  Result, ok, err, Exception, key_error, index_error, type_error, or_raise, raise_if, ◌>>=◌, ◌>>◌,
}
use telar.Number.{Number}
use telar.Json.{Value, null, py_eq, as_number}
use telar.Placement.{Variant}
use telar.Placement.Validate.{Settings}
use telar.Placement.Run.{Case, Walk}
use telar.Placement.Paired.{Dict, Summary, lookup, paired}
use telar.Placement.Session.{Entry}

-- The metrics: keys of a case in the source.
pub data Metric : Type 0 where
  median_ns_per_op walk_flush walk_empty_clock walk_flush_minus_clock : Metric

abbrev pub metrics_of : Option ℤ → List Metric
metrics_of none = median_ns_per_op ∷ []
metrics_of (some bytes) =
    median_ns_per_op ∷ walk_flush ∷ walk_empty_clock ∷ walk_flush_minus_clock ∷ []

module _ (n : Number) where
  open n use {Num}

  abbrev value_or_null : Option (Value n) → Value n
  value_or_null none = null
  value_or_null (some v) = v

  abbrev from_walk : Option (Walk n) → (Walk n → Option (Value n)) → Value n
  from_walk none f = null
  from_walk (some walk) f = value_or_null (f walk)

  -- `case.get(metric)`
  unfoldable pub metric_of : Metric → Case n → Value n
  metric_of median_ns_per_op case = value_or_null (lookup "median_ns_per_op" case.benchmark)
  metric_of walk_flush case = from_walk case.walk (λ w. w.flush_ns_per_flush)
  metric_of walk_empty_clock case = from_walk case.walk (λ w. w.empty_clock_ns_per_flush)
  metric_of walk_flush_minus_clock case =
      from_walk case.walk (λ w. w.flush_minus_clock_ns_per_flush)

  -- `run["cases"].get(case, {}).get(metric)`
  unfoldable pub case_metric : Metric → Value n → List (Value n × Case n) → Value n
  unfolding metric_of
  case_metric metric name [] = null
  case_metric metric name ((key, case) ∷ cases) =
      let rest = case_metric metric name cases in
      if py_eq n key name then metric_of metric case else rest

  -- A value of a series. What is neither a number nor `None` raises where the statistics read it.
  unfoldable pub measurement : Value n → Result Exception (Option Num)
  measurement null = ok none
  measurement v = do x ← or_raise (as_number n v) type_error; ok (some x)

  abbrev pub Series : Type 0
  Series = Dict (List (Option Num))

  -- `{name: [None] * rounds for name in variants}`
  unfoldable pub put_series : String → List (Option Num) → Series → Series
  put_series name values [] = (name, values) ∷ []
  put_series name values ((k, old) ∷ series) =
      let later = put_series name values series in
      if str_eq k name then (k, values) ∷ series else (k, old) ∷ later

  unfoldable pub empty_series : ℕ → List String → Series → Series
  unfolding put_series
  empty_series rounds [] series = series
  empty_series rounds (name ∷ names) series =
      empty_series rounds names (put_series name (replicate rounds none) series)

  -- `series[run["variant"]][run["round"]] = value`
  unfoldable pub record_value : Entry n → Option Num → Series → Result Exception Series
  unfolding put_series
  record_value run value series = do
    values ← or_raise (lookup run.variant.name series) key_error
    raise_if (not (ltb run.round (length values))) index_error
    ok (put_series run.variant.name (set values run.round value) series)

  unfoldable pub fill_series : Metric → Value n → List (Entry n) → Series → Result Exception Series
  unfolding case_metric measurement record_value
  fill_series metric name [] series = ok series
  fill_series metric name (run ∷ runs) series = elim run.counts [
    | false ↦ fill_series metric name runs series
    | true ↦ (do
      value ← measurement (case_metric metric name run.parsed.cases)
      series' ← record_value run value series
      fill_series metric name runs series')
  ]

  -- The names of the cases, in the order in which they first come up.
  unfoldable pub case_names : List (Value n) → List (Value n × Case n) → List (Value n)
  case_names seen [] = seen
  case_names seen ((name, case) ∷ cases) =
      case_names (if any (λ other. py_eq n other name) seen then seen else seen ++ name ∷ []) cases

  unfoldable pub all_case_names : List (Value n) → List (Entry n) → List (Value n)
  unfolding case_names
  all_case_names seen [] = seen
  all_case_names seen (run ∷ runs) = all_case_names (case_names seen run.parsed.cases) runs

  -- The summaries of each metric of each case.
  abbrev pub Tables : Type 0
  Tables = List (Value n × List (Metric × Dict (Summary n)))

  module _ (names : List String) (reference : String) (rounds : ℕ) (runs : List (Entry n)) where
    unfoldable pub derive_metrics :
        Value n → List Metric → Result Exception (List (Metric × Dict (Summary n)))
    unfolding empty_series fill_series
    derive_metrics case [] = ok []
    derive_metrics case (metric ∷ metrics) = do
      series ← fill_series metric case runs (empty_series rounds names [])
      table ← paired n series reference
      rest ← derive_metrics case metrics
      ok ((metric, table) ∷ rest)

    unfoldable pub derive_cases : List Metric → List (Value n) → Result Exception Tables
    unfolding derive_metrics
    derive_cases metrics [] = ok []
    derive_cases metrics (case ∷ cases) = do
      tables ← derive_metrics case metrics
      rest ← derive_cases metrics cases
      ok ((case, tables) ∷ rest)

  -- `[None] * rounds` is empty for a negative number of rounds.
  unfoldable pub derive :
      List Variant → String → Settings n → List (Entry n) → Result Exception Tables
  unfolding all_case_names derive_cases
  derive variants reference settings runs =
      derive_cases (map (λ (v : Variant). v.name) variants) reference (pos_part settings.rounds)
        runs (metrics_of settings.intervening_walk) (all_case_names [] runs)
