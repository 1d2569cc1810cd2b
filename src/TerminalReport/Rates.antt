-- ===== src/TerminalReport/Rates.antt =====
-- The samples that `throughput_statistics` collects from the runs.
use Prim.Native.String.{compare}
use Prim.Native.Nat.{Ordering}
use telar.TerminalReport.Runs.{
  as_text, finite_number, item_count, raised, invalid_throughput, Measured,
}
use telar.TerminalReport.Throughput.{
  Sample, Workloads, sample_key, valid_sample, read_sample, add_sample, add_samples, cases_of,
  is_endpoint, add_throughput, collect, insert_workload, sort_workloads,
}
use telar.Number.{Number}
use telar.Text.{is_empty}
use telar.Json.{
  Value, Items, nil, cons, null, bool, int, real, text, arr, obj, field, end, find, get, truthy,
}
use telar.Prelude.{
  ℕ, ◌+◌, ◌<◌, ◌≡◌, sym, ap, subst, String, Bool, false, not, ◌||◌, Option, none, some, List, [],
  ◌∷◌, length, str_eq, All, All-append, Bool-cases, inl, inr, length-append, arith,
}
use telar.Prelude.Int.{ℤ}
use telar.Prelude.Result.{
  key_error, ok, or_raise, ok_or_err, ok-injective, >>=-eq-ok, guard-eq-ok, or_raise-eq-ok,
}

module _ (n : Number) (is_finite : n.Num → Bool) where
  open n use {Num, of_nat, le}

  abbrev pub IsPositive : Sample n is_finite → Type 0
  IsPositive s = le s.mib_per_second (of_nat 0) ≡ false

  -- The samples of one workload: at least one, all of them with a rate above 0.
  abbrev pub AreRates : List (Sample n is_finite) → Type 0
  AreRates samples = (0 < length samples) × All IsPositive samples

  abbrev pub AreWorkloads : Workloads n is_finite → Type 0
  AreWorkloads workloads = All (λ w. AreRates w.1) workloads

  abbrev pub sample_total : Workloads n is_finite → ℕ
  sample_total [] = 0
  sample_total (w ∷ workloads) = length w.1 + sample_total workloads

  -- The samples that a run's `throughput` holds.
  abbrev case_count : Option (Value n) → ℕ
  case_count (some (arr cases)) = item_count n is_finite cases
  case_count _ = 0

  abbrev throughput_count : Value n → ℕ
  throughput_count (obj throughput) = case_count (find "cases" throughput)
  throughput_count _ = 0

  abbrev pub sample_count : List (Measured n is_finite) → ℕ
  sample_count [] = 0
  sample_count (run ∷ runs) = throughput_count (get "throughput" run.raw) + sample_count runs

  valid_sample-IsPositive :
      (name : Option String) (rate : Option Num) (valid : String × Num)
      → valid_sample n is_finite name rate ≡ ok valid
      → le valid.1 (of_nat 0) ≡ false
  unfolding valid_sample
  valid_sample-IsPositive (some name) (some rate) valid h = elim (Bool-cases (le rate (of_nat 0))) [
    | inl low ↦ absurd (ok_or_err (sym (rw (low, valid_sample) at h)))
    | inr high ↦
        subst (λ v. le v.1 (of_nat 0) ≡ false) (ok-injective (rw (high, valid_sample) at h)) high
  ]
  valid_sample-IsPositive (some name) none valid h = absurd (ok_or_err (sym h))
  valid_sample-IsPositive none rate valid h = absurd (ok_or_err (sym h))

  read_sample-IsPositive :
      (round : ℤ) (v : Value n) (named : String × Sample n is_finite)
      → read_sample n is_finite round v ≡ ok named
      → IsPositive named.1
  unfolding read_sample
  read_sample-IsPositive round v named h =
      let (name, a, h1) = >>=-eq-ok (sample_key n is_finite "name" v) _ h in
      let (rate, b, h2) = >>=-eq-ok (sample_key n is_finite "mib_per_second" v) _ h1 in
      let (valid, c, h3) =
        >>=-eq-ok
          (valid_sample n is_finite (as_text n is_finite name) (finite_number n is_finite rate)) _
          h2 in
      let (bytes, d, h4) = >>=-eq-ok (sample_key n is_finite "bytes" v) _ h3 in
      let (elapsed, e, h5) = >>=-eq-ok (sample_key n is_finite "elapsed_ms" v) _ h4 in
      subst (λ w. IsPositive w.1) (ok-injective h5) (valid_sample-IsPositive _ _ valid c)

  -- Workloads that hold `extra` samples more than `before`, and are still workloads.
  abbrev pub Gains : ℕ → Workloads n is_finite → Workloads n is_finite → Type 0
  Gains extra before now =
      (AreWorkloads before → AreWorkloads now) × (sample_total now ≡ extra + sample_total before)

  add_sample-Gains :
      (name : String) (s : Sample n is_finite) (workloads : Workloads n is_finite)
      → IsPositive s
      → Gains 1 workloads (add_sample n is_finite name s workloads)
  unfolding add_sample
  add_sample-Gains name s [] high = (λ none_yet. ((omega arith, (high, tt)), tt), omega arith)
  add_sample-Gains name s ((other, samples) ∷ workloads) high =
      elim (Bool-cases (str_eq name other)) [
        | inl same ↦ rw same (
          λ all. (
            (
              omega (arith, length-append samples (s ∷ [])),
              All-append IsPositive samples (s ∷ []) all.0.1 (high, tt),
            ),
            all.1,
          ),
          omega (arith, length-append samples (s ∷ [])),
        )
        | inr differs ↦
            let (keeps, total) = add_sample-Gains name s workloads high in
            rw differs (λ all. (all.0, keeps all.1), omega (arith, total))
      ]

  add_samples-Gains :
      (round : ℤ) (vs : Items Num) (before now : Workloads n is_finite)
      → add_samples n is_finite round vs before ≡ ok now
      → Gains (item_count n is_finite vs) before now
  unfolding add_samples
  add_samples-Gains round nil before now h =
      subst (Gains 0 before) (ok-injective h) (λ all. all, omega arith)
  add_samples-Gains round (cons v vs) before now h =
      let (named, a, h1) = >>=-eq-ok (read_sample n is_finite round v) _ h in
      let (keeps, total) =
        add_sample-Gains named.0 named.1 before (read_sample-IsPositive round v named a) in
      let (keeps', total') = add_samples-Gains round vs _ now h1 in
      (λ all. keeps' (keeps all), omega (arith, total, total'))

  cases_of-count :
      (v : Value n) (cases : Items Num)
      → cases_of n is_finite v ≡ ok cases
      → case_count (some v) ≡ item_count n is_finite cases
  unfolding cases_of
  cases_of-count (arr vs) cases h = ap (item_count n is_finite) (ok-injective h)
  cases_of-count (text s) cases h = elim (Bool-cases (is_empty s)) [
    | inl nothing ↦ ap (item_count n is_finite) (ok-injective (rw (nothing, cases_of) at h))
    | inr some_text ↦ absurd (ok_or_err (sym (rw (some_text, cases_of) at h)))
  ]
  cases_of-count (obj end) cases h = ap (item_count n is_finite) (ok-injective h)
  cases_of-count (obj (field k v fs)) cases h = absurd (ok_or_err (sym h))
  cases_of-count null cases h = absurd (ok_or_err (sym h))
  cases_of-count (bool b) cases h = absurd (ok_or_err (sym h))
  cases_of-count (int i) cases h = absurd (ok_or_err (sym h))
  cases_of-count (real x) cases h = absurd (ok_or_err (sym h))

  add_throughput-Gains :
      (round : ℤ) (v : Value n) (before now : Workloads n is_finite)
      → add_throughput n is_finite round v before ≡ ok now
      → Gains (throughput_count v) before now
  unfolding add_throughput
  add_throughput-Gains round null before now h =
      subst (Gains 0 before) (ok-injective h) (λ all. all, omega arith)
  add_throughput-Gains round (obj throughput) before now h =
      let (sound, h1) =
        guard-eq-ok
          (truthy n (get "failed" throughput)
            || not (is_endpoint n is_finite (as_text n is_finite (get "endpoint" throughput))))
          invalid_throughput _ h in
      let (value, a, h2) = >>=-eq-ok (or_raise (find "cases" throughput) (raised key_error)) _ h1 in
      let (cases, b, h3) = >>=-eq-ok (cases_of n is_finite value) _ h2 in
      let (keeps, total) = add_samples-Gains round cases before now h3 in
      (
        keeps,
        omega (
          arith,
          total,
          cases_of-count value cases b,
          ap case_count (or_raise-eq-ok (find "cases" throughput) (raised key_error) a),
        ),
      )
  add_throughput-Gains round (bool b) before now h = absurd (ok_or_err (sym h))
  add_throughput-Gains round (int i) before now h = absurd (ok_or_err (sym h))
  add_throughput-Gains round (real x) before now h = absurd (ok_or_err (sym h))
  add_throughput-Gains round (text s) before now h = absurd (ok_or_err (sym h))
  add_throughput-Gains round (arr vs) before now h = absurd (ok_or_err (sym h))

  pub collect-Gains :
      (runs : List (Measured n is_finite)) (before now : Workloads n is_finite)
      → collect n is_finite runs before ≡ ok now
      → Gains (sample_count runs) before now
  unfolding collect
  collect-Gains [] before now h = subst (Gains 0 before) (ok-injective h) (λ all. all, omega arith)
  collect-Gains (run ∷ runs) before now h =
      let (more, a, h1) =
        >>=-eq-ok (add_throughput n is_finite run.identity.round (get "throughput" run.raw) before)
          _ h in
      let (keeps, total) =
        add_throughput-Gains run.identity.round (get "throughput" run.raw) before more a in
      let (keeps', total') = collect-Gains runs more now h1 in
      (λ all. keeps' (keeps all), omega (arith, total, total'))

  insert_workload-Gains :
      (w : String × List (Sample n is_finite)) (workloads : Workloads n is_finite)
      → Gains 0 (w ∷ workloads) (insert_workload n is_finite w workloads)
  unfolding insert_workload
  insert_workload-Gains w [] = (λ all. all, omega arith)
  insert_workload-Gains w (v ∷ workloads) =
      let (keeps, total) = insert_workload-Gains w workloads in go keeps total (compare w.0 v.0)
    where
      go :
          (AreWorkloads (w ∷ workloads) → AreWorkloads (insert_workload n is_finite w workloads))
          → (sample_total (insert_workload n is_finite w workloads)
              ≡ 0 + sample_total (w ∷ workloads))
          → (o : Ordering)
          → Gains 0 (w ∷ v ∷ workloads) (elim o [
            | Ordering.lt ↦ w ∷ v ∷ workloads
            | Ordering.eq ↦ w ∷ v ∷ workloads
            | Ordering.gt ↦ v ∷ insert_workload n is_finite w workloads
          ])
      go keeps total Ordering.lt = (λ all. all, omega arith)
      go keeps total Ordering.eq = (λ all. all, omega arith)
      go keeps total Ordering.gt = (λ all. (all.1.0, keeps (all.0, all.1.1)), omega (arith, total))

  pub sort_workloads-Gains :
      (workloads : Workloads n is_finite) → Gains 0 workloads (sort_workloads n is_finite workloads)
  unfolding sort_workloads
  sort_workloads-Gains [] = (λ all. all, omega arith)
  sort_workloads-Gains (w ∷ workloads) =
      let (keeps, total) = sort_workloads-Gains workloads in
      let (keeps', total') = insert_workload-Gains w (sort_workloads n is_finite workloads) in
      (λ all. keeps' (all.0, keeps all.1), omega (arith, total, total'))
