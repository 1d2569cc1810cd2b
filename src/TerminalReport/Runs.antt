-- ===== src/TerminalReport/Runs.antt =====
-- tools/terminal_bench_report.py: `load_runs`.
use telar.Statistics.{maximum, median, percentile}
use telar.Number.{Number}
use telar.Prelude.{
  ℕ, ◌+◌, String, Bool, ◌&&◌, Option, none, some, List, [], ◌∷◌, length, drop, any, str_eq, ltb,
  ◌==◌, if◌then◌else◌,
}
use telar.Prelude.Int.{ltb_ℤ, eq_ℤ, ℤ, pos}
use telar.Prelude.Result.{
  value_error, key_error, Exception, Result, ok, err, ◌>>=◌, raise_if, or_raise,
}
use telar.Json.{Value, Row, find, get, truthy, int, real, text, arr, nil, cons, Items}

abbrev pub mode_order : List String
mode_order = "ghostty" ∷ "gui" ∷ "tui" ∷ []

-- What the report raises: a `ValueError` for each text, or what an operation raises.
pub data ReportError : Type 0 where
  invalid_case invalid_round duplicate_run invalid_warmup : ReportError
  invalid_measurement no_runs invalid_throughput invalid_sample : ReportError
  raised : Exception → ReportError

-- `case, mode, round_index`
pub record Identity : Type 0 where
  pub case : String
  pub mode : String
  pub round : ℤ

abbrev pub same_identity : Identity → Identity → Bool
same_identity a b = str_eq a.case b.case && str_eq a.mode b.mode && eq_ℤ a.round b.round

abbrev pub is_mode : String → Bool
is_mode name = any (str_eq name) mode_order

abbrev pub as_report : {A : Type 0} → Result Exception A → Result ReportError A
as_report (ok a) = ok a
as_report (err e) = err (raised e)

abbrev prepend : {A : Type 0} → A → Option (List A) → Option (List A)
prepend x none = none
prepend x (some xs) = some (x ∷ xs)

module _ (n : Number) (is_finite : n.Num → Bool) where
  open n use {Num, of_nat, of_int, lt, div}

  pub record Quantiles : Type 0 where
    pub count : ℕ
    pub p50_ms : Num
    pub p95_ms : Num
    pub p99_ms : Num
    pub max_ms : Num

  pub record Measured : Type 0 where
    pub identity : Identity
    pub raw : Row n
    pub source : String
    pub values : List Num
    pub summary : Quantiles

  unfoldable pub run_key : String → Row n → Result ReportError (Value n)
  run_key key row = or_raise (find key row) (raised key_error)

  -- `finite_number(value)`, and the number.
  unfoldable pub finite_number : Value n → Option Num
  finite_number (int i) = some (of_int i)
  finite_number (real x) = if is_finite x then some x else none
  finite_number _ = none

  -- The numbers of a list of samples, or `none` where one of them is not finite or negative.
  unfoldable pub samples_of : Items Num → Option (List Num)
  unfolding finite_number
  samples_of nil = some []
  samples_of (cons v vs) =
      let rest = samples_of vs in
      elim (finite_number v) [
        | none ↦ none
        | some x ↦ if lt x (of_nat 0) then none else prepend x rest
      ]

  abbrev pub item_count : Items Num → ℕ
  item_count nil = 0
  item_count (cons v vs) = item_count vs + 1

  -- The case and the mode, the round, and the number of warm-up samples.
  unfoldable pub as_text : Value n → Option String
  as_text (text s) = some s
  as_text _ = none

  unfoldable pub known_mode : Option String → Option String → Result ReportError (String × String)
  known_mode (some case) (some mode) = if is_mode mode then ok (case, mode) else err invalid_case
  known_mode (some case) none = err invalid_case
  known_mode none mode = err invalid_case

  unfoldable pub read_case : Value n → Value n → Result ReportError (String × String)
  unfolding as_text known_mode
  read_case case mode = known_mode (as_text case) (as_text mode)

  unfoldable pub read_round : Value n → Result ReportError ℤ
  read_round (int i) = if ltb_ℤ i (pos 0) then err invalid_round else ok i
  read_round _ = err invalid_round

  unfoldable pub as_count : Value n → Option ℕ
  as_count (int (pos w)) = some w
  as_count _ = none

  unfoldable pub as_items : Value n → Option (Items Num)
  as_items (arr samples) = some samples
  as_items _ = none

  unfoldable pub within_samples : Option ℕ → Option (Items Num) → Result ReportError (ℕ × Items Num)
  within_samples (some w) (some samples) =
      if ltb w (item_count samples) then ok (w, samples) else err invalid_warmup
  within_samples (some w) none = err invalid_warmup
  within_samples none samples = err invalid_warmup

  unfoldable pub read_warmup : Value n → Value n → Result ReportError (ℕ × Items Num)
  unfolding within_samples as_count as_items
  read_warmup warmup samples = within_samples (as_count warmup) (as_items samples)

  unfoldable pub quantile : List Num → ℕ → Result ReportError Num
  quantile values hundredths =
      as_report (percentile n values (div (of_nat hundredths) (of_nat 100)))

  unfoldable pub quantiles : List Num → Result ReportError Quantiles
  unfolding quantile
  quantiles values = or_raise (median n values) (raised value_error) >>= λ p50.
      quantile values 95 >>= λ p95. quantile values 99 >>= λ p99.
      or_raise (maximum n values) (raised value_error) >>= λ most.
      ok (record { count = length values; p50_ms = p50; p95_ms = p95; p99_ms = p99; max_ms = most })

  unfoldable pub read_identity : Row n → Result ReportError Identity
  unfolding read_case read_round
  read_identity row = run_key "case" row >>= λ case. run_key "mode" row >>= λ mode.
      run_key "round" row >>= λ round_value. read_case case mode >>= λ names.
      read_round round_value >>= λ round.
      ok (record { case = names.0; mode = names.1; round = round })

  unfoldable pub read_samples : Row n → Result ReportError (List Num)
  unfolding read_warmup samples_of
  read_samples row = run_key "warmup" row >>= λ warmup. run_key "gpu_ms" row >>= λ samples.
      read_warmup warmup samples >>= λ counted.
      raise_if (truthy n (get "failed" row)) invalid_measurement >>= λ sound.
      or_raise (samples_of counted.1) invalid_measurement >>= λ numbers. ok (drop counted.0 numbers)

  -- One run, given the identities of those before it.
  unfoldable pub read_run : String → List Identity → Row n → Result ReportError Measured
  unfolding read_identity read_samples quantiles
  read_run source seen row = read_identity row >>= λ identity.
      raise_if (any (same_identity identity) seen) duplicate_run >>= λ new.
      read_samples row >>= λ values. quantiles values >>= λ summary. ok (record {
        identity = identity;
        raw = row;
        source = source;
        values = values;
        summary = summary;
      })

  -- The runs of all the files in turn, each with its file.
  unfoldable pub read_runs :
      List Identity → List (String × Row n) → Result ReportError (List Measured)
  unfolding read_run
  read_runs seen [] = ok []
  read_runs seen ((source, row) ∷ rows) = read_run source seen row >>= λ run.
      read_runs (run.identity ∷ seen) rows >>= λ runs. ok (run ∷ runs)

  unfoldable pub load_runs : List (String × Row n) → Result ReportError (List Measured)
  unfolding read_runs
  load_runs rows =
      read_runs [] rows >>= λ runs. raise_if (length runs == 0) no_runs >>= λ found. ok runs
