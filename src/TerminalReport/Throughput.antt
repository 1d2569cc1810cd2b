-- ===== src/TerminalReport/Throughput.antt =====
-- tools/terminal_bench_report.py: `throughput_statistics`, the rates of the runs by workload.
use telar.TerminalReport.Runs.{
  finite_number, as_text, raised, invalid_throughput, invalid_sample, ReportError, Measured,
}
use Prim.Native.String.{compare}
use Prim.Native.Nat.{Ordering}
use telar.Statistics.{maximum, minimum, median}
use telar.Number.{Number}
use telar.Text.{is_empty}
use telar.Json.{Value, Items, nil, cons, null, text, arr, obj, end, find, get, truthy}
use telar.Prelude.{
  false, ℕ, String, Bool, not, ◌||◌, Option, none, some, List, [], ◌∷◌, ◌++◌, map, length, str_eq,
  if◌then◌else◌,
}
use telar.Prelude.Int.{ℤ}
use telar.Prelude.Result.{
  value_error, key_error, type_error, attribute_error, Result, ok, err, ◌>>=◌, raise_if, or_raise,
}

module _ (n : Number) (is_finite : n.Num → Bool) where
  open n use {Num, of_nat, le}

  pub record Sample : Type 0 where
    pub round : ℤ
    pub mib_per_second : Num
    pub bytes : Value n
    pub elapsed_ms : Value n

  pub record Throughput : Type 0 where
    pub count : ℕ
    pub median_mib_per_second : Num
    pub least_mib_per_second : Num
    pub greatest_mib_per_second : Num
    pub samples : List Sample

  -- The samples of each workload, in the order in which its name first came.
  abbrev pub Workloads : Type 0
  Workloads = List (String × List Sample)

  -- `sample[key]`
  unfoldable pub sample_key : String → Value n → Result ReportError (Value n)
  sample_key key (obj sample) = or_raise (find key sample) (raised key_error)
  sample_key key _ = err (raised type_error)

  unfoldable pub valid_sample : Option String → Option Num → Result ReportError (String × Num)
  valid_sample (some name) (some rate) =
      if le rate (of_nat 0) then err invalid_sample else ok (name, rate)
  valid_sample (some name) none = err invalid_sample
  valid_sample none rate = err invalid_sample

  unfoldable pub read_sample : ℤ → Value n → Result ReportError (String × Sample)
  unfolding sample_key valid_sample
  read_sample round sample = sample_key "name" sample >>= λ name.
      sample_key "mib_per_second" sample >>= λ rate.
      valid_sample (as_text n is_finite name) (finite_number n is_finite rate) >>= λ valid.
      sample_key "bytes" sample >>= λ bytes. sample_key "elapsed_ms" sample >>= λ elapsed. ok (
        valid.0,
        record { round = round; mib_per_second = valid.1; bytes = bytes; elapsed_ms = elapsed },
      )

  -- `workloads.setdefault(name, []).append(sample)`
  unfoldable pub add_sample : String → Sample → Workloads → Workloads
  add_sample name sample [] = (name, sample ∷ []) ∷ []
  add_sample name sample ((other, samples) ∷ workloads) =
      let rest = add_sample name sample workloads in
      if str_eq name other
      then (other, samples ++ sample ∷ []) ∷ workloads
      else (other, samples) ∷ rest

  unfoldable pub add_samples : ℤ → Items Num → Workloads → Result ReportError Workloads
  unfolding read_sample add_sample
  add_samples round nil workloads = ok workloads
  add_samples round (cons v vs) workloads =
      read_sample round v >>= λ named. add_samples round vs (add_sample named.0 named.1 workloads)

  -- What the loop over `throughput['cases']` visits. A text and an object have texts to visit, of
  -- which the first has no `sample['name']`.
  unfoldable pub cases_of : Value n → Result ReportError (Items Num)
  cases_of (arr cases) = ok cases
  cases_of (text s) = if is_empty s then ok nil else err (raised type_error)
  cases_of (obj end) = ok nil
  cases_of _ = err (raised type_error)

  abbrev pub is_endpoint : Option String → Bool
  is_endpoint none = false
  is_endpoint (some name) = str_eq name "pty_write_to_dsr_response"

  -- The `throughput` of a run, which a run need not have.
  unfoldable pub add_throughput : ℤ → Value n → Workloads → Result ReportError Workloads
  unfolding add_samples cases_of
  add_throughput round null workloads = ok workloads
  add_throughput round (obj throughput) workloads =
      raise_if
        (truthy n (get "failed" throughput)
          || not (is_endpoint (as_text n is_finite (get "endpoint" throughput))))
        invalid_throughput
      >>= λ sound. or_raise (find "cases" throughput) (raised key_error) >>= λ value.
          cases_of value >>= λ cases. add_samples round cases workloads
  add_throughput round _ workloads = err (raised attribute_error)

  unfoldable pub collect : List (Measured n is_finite) → Workloads → Result ReportError Workloads
  unfolding add_throughput
  collect [] workloads = ok workloads
  collect (run ∷ runs) workloads =
      add_throughput run.identity.round (get "throughput" run.raw) workloads >>= λ more.
      collect runs more

  -- `sorted(workloads.items())`: the names differ, so the samples are not compared.
  unfoldable pub insert_workload : String × List Sample → Workloads → Workloads
  insert_workload w [] = w ∷ []
  insert_workload w (v ∷ workloads) = elim (compare w.0 v.0) [
    | Ordering.lt ↦ w ∷ v ∷ workloads
    | Ordering.eq ↦ w ∷ v ∷ workloads
    | Ordering.gt ↦ v ∷ insert_workload w workloads
  ]

  unfoldable pub sort_workloads : Workloads → Workloads
  unfolding insert_workload
  sort_workloads [] = []
  sort_workloads (w ∷ workloads) = insert_workload w (sort_workloads workloads)

  abbrev pub rates : List Sample → List Num
  rates samples = map (λ s. s.mib_per_second) samples

  unfoldable pub describe_workload : List Sample → Result ReportError Throughput
  describe_workload samples = or_raise (median n (rates samples)) (raised value_error) >>= λ middle.
      or_raise (minimum n (rates samples)) (raised value_error) >>= λ low.
      or_raise (maximum n (rates samples)) (raised value_error) >>= λ high. ok (record {
        count = length samples;
        median_mib_per_second = middle;
        least_mib_per_second = low;
        greatest_mib_per_second = high;
        samples = samples;
      })

  unfoldable pub describe_workloads : Workloads → Result ReportError (List (String × Throughput))
  unfolding describe_workload
  describe_workloads [] = ok []
  describe_workloads (w ∷ workloads) = describe_workload w.1 >>= λ entry.
      describe_workloads workloads >>= λ rest. ok ((w.0, entry) ∷ rest)

  unfoldable pub throughput_statistics :
      List (Measured n is_finite) → Result ReportError (List (String × Throughput))
  unfolding collect sort_workloads describe_workloads
  throughput_statistics runs =
      collect runs [] >>= λ workloads. describe_workloads (sort_workloads workloads)
