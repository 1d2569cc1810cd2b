-- ===== src/TerminalReport/Tables.antt =====
-- What the tables of `throughput_statistics` hold.
use telar.Statistics.{maximum, minimum, median}
use telar.TerminalReport.Runs.{raised, Measured}
use telar.TerminalReport.Throughput.{
  Sample, Throughput, Workloads, collect, rates, describe_workload, describe_workloads,
  throughput_statistics,
}
use telar.TerminalReport.Rates.{
  AreRates, AreWorkloads, sample_total, sample_count, collect-Gains, sort_workloads-Gains,
}
use telar.Number.{Number}
use telar.Prelude.{
  Bool, ℕ, ◌+◌, ◌<◌, ◌≡◌, refl, subst, String, false, some, List, [], ◌∷◌, length, All, arith,
}
use telar.Prelude.Result.{value_error, ok, or_raise, ok-injective, >>=-eq-ok, or_raise-eq-ok}

module _ (n : Number) (is_finite : n.Num → Bool) where
  open n use {Num, of_nat, le}

  -- The table of one workload: all its samples, each with a rate above 0, at least one, and the
  -- median, the least and the greatest of their rates.
  pub record IsTable (entry : Throughput n is_finite) : Type 0 where
    pub count : entry.count ≡ length entry.samples
    pub some_left : 0 < entry.count
    pub positive : All (λ s. le s.mib_per_second (of_nat 0) ≡ false) entry.samples
    pub middle : median n (rates n is_finite entry.samples) ≡ some entry.median_mib_per_second
    pub low : minimum n (rates n is_finite entry.samples) ≡ some entry.least_mib_per_second
    pub high : maximum n (rates n is_finite entry.samples) ≡ some entry.greatest_mib_per_second

  abbrev pub table_total : List (String × Throughput n is_finite) → ℕ
  table_total [] = 0
  table_total ((name, entry) ∷ tables) = entry.count + table_total tables

  describe_workload-IsTable :
      (samples : List (Sample n is_finite)) (entry : Throughput n is_finite)
      → AreRates n is_finite samples
      → describe_workload n is_finite samples ≡ ok entry
      → IsTable entry × (entry.count ≡ length samples)
  unfolding describe_workload
  describe_workload-IsTable samples entry (some_left, positive) h =
      let (middle, a, h1) =
        >>=-eq-ok (or_raise (median n (rates n is_finite samples)) (raised value_error)) _ h in
      let (low, b, h2) =
        >>=-eq-ok (or_raise (minimum n (rates n is_finite samples)) (raised value_error)) _ h1 in
      let (high, c, h3) =
        >>=-eq-ok (or_raise (maximum n (rates n is_finite samples)) (raised value_error)) _ h2 in
      subst (λ t. IsTable t × (t.count ≡ length samples)) (ok-injective h3)
        (
          record {
            count = refl;
            some_left = some_left;
            positive = positive;
            middle = or_raise-eq-ok _ _ a;
            low = or_raise-eq-ok _ _ b;
            high = or_raise-eq-ok _ _ c;
          },
          refl,
        )

  describe_workloads-AreTables :
      (workloads : Workloads n is_finite) (tables : List (String × Throughput n is_finite))
      → AreWorkloads n is_finite workloads
      → describe_workloads n is_finite workloads ≡ ok tables
      → All (λ t. IsTable t.1) tables × (table_total tables ≡ sample_total n is_finite workloads)
  unfolding describe_workloads
  describe_workloads-AreTables [] tables all h =
      subst (λ t. All (λ e. IsTable e.1) t × (table_total t ≡ 0)) (ok-injective h) (tt, refl)
  describe_workloads-AreTables (w ∷ workloads) tables (here, all) h =
      let (entry, a, h1) = >>=-eq-ok (describe_workload n is_finite w.1) _ h in
      let (rest, b, h2) = >>=-eq-ok (describe_workloads n is_finite workloads) _ h1 in
      let (table, size) = describe_workload-IsTable w.1 entry here a in
      let (more, total) = describe_workloads-AreTables workloads rest all b in
      subst
        (λ t. All (λ e. IsTable e.1) t × (table_total t ≡ sample_total n is_finite (w ∷ workloads)))
        (ok-injective h2) ((table, more), omega (arith, size, total))

  -- Where `throughput_statistics` returns, the tables together count as many samples
  -- as the runs hold; each table
  -- holds at least one sample, none of them with a rate that is at most 0, and its median and range
  -- are those of its samples.
  pub throughput_statistics-AreTables :
      (runs : List (Measured n is_finite)) (tables : List (String × Throughput n is_finite))
      → throughput_statistics n is_finite runs ≡ ok tables
      → All (λ t. IsTable t.1) tables × (table_total tables ≡ sample_count n is_finite runs)
  unfolding throughput_statistics
  throughput_statistics-AreTables runs tables h =
      let (workloads, a, h1) = >>=-eq-ok (collect n is_finite runs []) _ h in
      let (keeps, total) = collect-Gains n is_finite runs [] workloads a in
      let (sorts, same) = sort_workloads-Gains n is_finite workloads in
      let (all, counted) = describe_workloads-AreTables _ tables (sorts (keeps tt)) h1 in
      (all, omega (arith, total, same, counted))
