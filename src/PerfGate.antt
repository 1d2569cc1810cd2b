-- ===== src/PerfGate.antt =====
-- tools/perf_gate.py: the verdict on repeated benchmark runs.
pub mod Comparable
pub mod Verdict
use telar.Prelude.{
  ℕ, String, Bool, true, false, not, ◌&&◌, ◌||◌, Option, none, some, List, [], ◌∷◌, ◌++◌, any,
  if◌then◌else◌,
}
use telar.Prelude.Int.{ℤ, pos, ltb_ℤ}
use telar.Prelude.Result.{
  Result, ok, err, Exception, key_error, type_error, value_error, overflow_error, os_failure,
  raise_if, or_raise, ◌>>=◌, ◌>>◌,
}
use telar.Number.{Number}
use telar.Json.{Value, Row, text, find, get, py_eq, as_number}
use telar.Statistics.{median, minimum, maximum}
use telar.Placement.Run.{Line}
use telar.Benchmarks.{Loaded, load, find_case, same_keys}

-- What the comparison of two runs asks of their metadata.
abbrev pub metadata_fields : List String
metadata_fields =
    "zig" ∷ "mode" ∷ "arch" ∷ "cpu" ∷ "os" ∷ "cols" ∷ "rows" ∷ "samples" ∷ "sample_target_ns" ∷ []

module _ (n : Number) (parse_float : String → Option n.Num) where
  open n use {Num, of_nat, sub, mul, div, lt, eq, is_finite, trunc}

  pub record Args : Type 0 where
    pub p50_percent : Num
    pub p95_percent : Num
    pub p99_percent : Num
    pub payload_byte_delta : ℤ
    pub allow_noisy : Bool

  -- `float(value)`
  unfoldable pub to_float : Value n → Result Exception Num
  to_float (text s) = or_raise (parse_float s) value_error
  to_float v = or_raise (as_number n v) type_error

  -- `TIMINGS`, each with its threshold.
  abbrev pub timings : Args → List (String × Num)
  timings args =
      ("median_ns_per_op", args.p50_percent)
      ∷ ("p95_ns_per_op", args.p95_percent)
      ∷ ("p99_ns_per_op", args.p99_percent)
      ∷ []

  abbrev pub mismatch : Loaded n → Loaded n → Bool
  mismatch reference run =
      any (λ field. not (py_eq n (get field run.metadata) (get field reference.metadata)))
        metadata_fields

  unfoldable pub validate_others : Loaded n → List (Loaded n) → Result Exception (Unit {0})
  validate_others reference [] = ok tt
  validate_others reference (run ∷ runs) = do
    raise_if (mismatch reference run) value_error
    raise_if (not (same_keys n reference.cases run.cases)) value_error
    validate_others reference runs

  -- `float(cases[name][field])` of every run
  unfoldable pub values_of : Value n → String → List (Loaded n) → Result Exception (List Num)
  unfolding to_float
  values_of name field [] = ok []
  values_of name field (run ∷ runs) = do
    row ← or_raise (find_case n name run.cases) key_error
    v ← or_raise (find field row) key_error
    x ← to_float v
    rest ← values_of name field runs
    ok (x ∷ rest)

  -- `(a / b - 1.0) * 100.0`, and no change against zero
  abbrev pub percent : Num → Num → Num
  percent a b = if eq b (of_nat 0) then of_nat 0 else mul (sub (div a b) (of_nat 1)) (of_nat 100)

  unfoldable pub spread_of : List Num → Result Exception Num
  spread_of values = do
    low ← or_raise (minimum n values) value_error
    high ← or_raise (maximum n values) value_error
    ok (percent high low)

  unfoldable pub noisy_timings :
      List (Loaded n) → Value n → List (String × Num) → Result Exception (List (Value n × String))
  unfolding values_of spread_of
  noisy_timings runs name [] = ok []
  noisy_timings runs name ((field, threshold) ∷ gates) = do
    values ← values_of name field runs
    spread ← spread_of values
    rest ← noisy_timings runs name gates
    ok (if lt threshold spread then (name, field) ∷ rest else rest)

  unfoldable pub noisy_cases :
      List (Loaded n)
      → List (String × Num)
      → List (Value n × Row n)
      → Result Exception (List (Value n × String))
  unfolding noisy_timings
  noisy_cases runs gates [] = ok []
  noisy_cases runs gates ((name, row) ∷ cases) = do
    found ← noisy_timings runs name gates
    rest ← noisy_cases runs gates cases
    ok (found ++ rest)

  -- `noisy`: the runs are the first and the others.
  unfoldable pub noisy :
      Loaded n → List (Loaded n) → List (String × Num) → Result Exception (List (Value n × String))
  unfolding noisy_cases
  noisy first runs gates = noisy_cases (first ∷ runs) gates first.cases

  pub record Figures : Type 0 where
    pub p50 : Num
    pub p95 : Num
    pub p99 : Num
    pub payload : Num

  abbrev float_or_zero : Option (Value n) → Result Exception Num
  float_or_zero none = ok (of_nat 0)
  float_or_zero (some v) = to_float v

  -- `float(run_cases[name].get(field, 0))` of every run
  unfoldable pub figures_of : Value n → String → List (Loaded n) → Result Exception (List Num)
  unfolding to_float
  figures_of name field [] = ok []
  figures_of name field (run ∷ runs) = do
    row ← or_raise (find_case n name run.cases) key_error
    x ← float_or_zero (find field row)
    rest ← figures_of name field runs
    ok (x ∷ rest)

  unfoldable pub median_of : Value n → String → List (Loaded n) → Result Exception Num
  unfolding figures_of
  median_of name field runs = do
    values ← figures_of name field runs
    or_raise (median n values) value_error

  unfoldable pub aggregate_cases :
      List (Loaded n) → List (Value n × Row n) → Result Exception (List (Value n × Figures))
  unfolding median_of
  aggregate_cases runs [] = ok []
  aggregate_cases runs ((name, row) ∷ cases) = do
    p50 ← median_of name "median_ns_per_op" runs
    p95 ← median_of name "p95_ns_per_op" runs
    p99 ← median_of name "p99_ns_per_op" runs
    payload ← median_of name "payload_bytes_per_op" runs
    rest ← aggregate_cases runs cases
    ok ((name, record { p50 = p50; p95 = p95; p99 = p99; payload = payload }) ∷ rest)

  unfoldable pub aggregate :
      Loaded n → List (Loaded n) → Result Exception (List (Value n × Figures))
  unfolding aggregate_cases
  aggregate first runs = aggregate_cases (first ∷ runs) first.cases

  -- `abs(int(new - old))`; NaN and the infinities have no `int`
  abbrev pub payload_delta : Num → Num → Result Exception ℕ
  payload_delta new old =
      let d = sub new old in
      if is_finite d
      then ok (trunc (if lt d (of_nat 0) then sub (of_nat 0) d else d))
      else if eq d d
      then err overflow_error
      else err value_error

  unfoldable pub exceeds : Args → Figures → Figures → Result Exception Bool
  exceeds args old new = do
    delta ← payload_delta new.payload old.payload
    ok (
        lt args.p50_percent (percent new.p50 old.p50)
        || lt args.p95_percent (percent new.p95 old.p95)
        || lt args.p99_percent (percent new.p99 old.p99)
        || ltb_ℤ args.payload_byte_delta (pos delta))

  unfoldable pub find_figures : Value n → List (Value n × Figures) → Option Figures
  find_figures name [] = none
  find_figures name ((k, f) ∷ table) =
      let later = find_figures name table in if py_eq n k name then some f else later

  -- Whether a case fails.
  unfoldable pub any_failed :
      Args → List (Value n × Figures) → List (Value n × Figures) → Result Exception Bool
  unfolding find_figures exceeds
  any_failed args candidate [] = ok false
  any_failed args candidate ((name, old) ∷ baseline) = do
    new ← or_raise (find_figures name candidate) key_error
    over ← exceeds args old new
    rest ← any_failed args candidate baseline
    ok (over || rest)

  -- `load` of a file that may not open.
  unfoldable pub load_all : List (Option (List (Line n))) → Result Exception (List (Loaded n))
  load_all [] = ok []
  load_all (file ∷ files) = do
    lines ← or_raise file os_failure
    run ← load n lines
    runs ← load_all files
    ok (run ∷ runs)

  abbrev pub is_nil : {A : Type 0} → List A → Bool
  is_nil [] = true
  is_nil (x ∷ xs) = false

  abbrev pub first_of : {A : Type 0} → List A → Result Exception (A × List A)
  first_of [] = err value_error
  first_of (x ∷ xs) = ok (x, xs)

  -- At least one run on each side, all comparable with the first.
  unfoldable pub read_runs :
      List (Option (List (Line n)))
      → List (Option (List (Line n)))
      → Result Exception ((Loaded n × List (Loaded n)) × (Loaded n × List (Loaded n)))
  unfolding load_all validate_others
  read_runs baseline candidate = do
    b ← load_all baseline
    c ← load_all candidate
    (b0, bs) ← first_of b
    (c0, cs) ← first_of c
    validate_others b0 (bs ++ c0 ∷ cs)
    ok ((b0, bs), (c0, cs))

  abbrev pub is_caught : Exception → Bool
  is_caught os_failure = true
  is_caught key_error = true
  is_caught type_error = true
  is_caught value_error = true
  is_caught _ = false

  unfoldable pub verdict :
      Args → Loaded n × List (Loaded n) → Loaded n × List (Loaded n) → Result Exception ℕ
  unfolding noisy aggregate any_failed
  verdict args (b0, bs) (c0, cs) = do
    noisy_b ← noisy b0 bs (timings args)
    noisy_c ← noisy c0 cs (timings args)
    if not (is_nil (noisy_b ++ noisy_c)) && not args.allow_noisy then ok 2 else (do
      old ← aggregate b0 bs
      new ← aggregate c0 cs
      failed ← any_failed args new old
      ok (if failed then 1 else 0))

  -- The exit status.
  unfoldable pub main :
      Args → List (Option (List (Line n))) → List (Option (List (Line n))) → Result Exception ℕ
  unfolding read_runs verdict
  main args baseline candidate = elim (read_runs baseline candidate) [
    | err raised ↦ if is_caught raised then ok 2 else err raised
    | ok runs ↦ verdict args runs.0 runs.1
  ]
