-- ===== src/Placement/Run/Counts.antt =====
-- A run whose output raises no problem shows what it must show to count.
use telar.Placement.Run.Figures.{read_walk, read_allocations}
use telar.Prelude.Int.{ℤ}
use telar.Prelude.Result.{ok-injective, >>=-eq-ok}
use telar.Placement.Run.OneCase.{asked_walk, parse_case}
use telar.Placement.Run.RecordRows.{
  read_records, shape_problems, expected_counts, count_of, count_problems,
}
use telar.Placement.Run.Checks.{
  from_row, teardown_problems, idle_problems, fixture_problems, benchmark_problems,
}
use telar.Json.{is_true, int, get, is_int, py_eq, Row, Value}
use telar.Placement.Run.Rows.{of_case_kind, differs, one, when}
use telar.Number.{Number}
use telar.Prelude.{
  or_false, of_not, subst, ◌∙◌, Option, All, ap, String, ◌≡◌, some, [], ◌∷◌, true, false, List,
  ◌++◌, not,
}
use telar.Placement.Run.{ok, pos, benchmark_fields, Records, Problem, Case}
use telar.Placement.Run.Silent.{append-eq-nil, when-nil, Only, one-nil}

module _ (n : Number) where
  -- `a == b` in Python's sense.
  abbrev pub Same : Value n → Value n → Type 0
  Same a b = py_eq n a b ≡ true

  pub differs-false : (a b : Value n) → differs n a b ≡ false → Same a b
  unfolding differs
  differs-false a b h = of_not _ h

  benchmark_problems-nil :
      (fields : List String) (row : Row n)
      → benchmark_problems n fields row ≡ []
      → All (λ field. is_int (get field row) ≡ true) fields
  unfolding benchmark_problems
  benchmark_problems-nil [] row h = tt
  benchmark_problems-nil (field ∷ fields) row h =
      let (first, rest) =
        append-eq-nil (when n (not (is_int (get field row))) (Problem.not_whole field)) _ h in
      (of_not _ (when-nil n _ _ first), benchmark_problems-nil fields row rest)

  count_problems-nil :
      (records : List (Value n × Records n)) (expected : List (String × Value n))
      → count_problems n records expected ≡ []
      → All (λ (e : String × Value n). Same (count_of n e.0 records) e.1) expected
  unfolding count_problems
  count_problems-nil records [] h = tt
  count_problems-nil records ((kind, needed) ∷ rest) h =
      let (first, later) =
        append-eq-nil (when n (differs n (count_of n kind records) needed) _) _ h in
      (differs-false _ _ (when-nil n _ _ first), count_problems-nil records rest later)

  -- One benchmark row with whole numbers; a fixture of which no allocation was refused; idle after
  -- the timing; every controlled allocation freed at teardown; and as many records of each kind as
  -- the shape needs.
  pub record IsCounted (rows : List (Row n)) (name : Value n) (case : Case n) : Type 0 where
    pub benchmark : Row n
    pub only_benchmark : Only n "benchmark" name rows benchmark
    pub whole_fields : All (λ field. is_int (get field benchmark) ≡ true) benchmark_fields
    pub fixture : Row n
    pub only_fixture : Only n "placement_fixture" name rows fixture
    pub none_refused : Same (get "refused" fixture) (int (pos 0))
    pub idle : Row n
    pub only_idle : Only n "placement_idle" name rows idle
    pub quiet : is_true (get "quiet" idle) ≡ true
    pub nothing_pending : Same (get "sends_pending" idle) (int (pos 0))
    pub teardown : Row n
    pub only_teardown : Only n "placement_teardown" name rows teardown
    pub all_freed : Same (get "live" teardown) (int (pos 0))
    pub none_refused_later : Same (get "refused" teardown) (int (pos 0))
    pub expected : List (String × Value n)
    pub needed : expected_counts n fixture ≡ ok expected
    pub counts : All (λ (e : String × Value n). Same (count_of n e.0 case.records) e.1) expected

  shape-eq-ok :
      (fixture : Row n) (records : List (Value n × Records n)) {problems : List (Problem n)}
      → shape_problems n (some fixture) records ≡ ok problems
      → (expected : List (String × Value n)) × (expected_counts n fixture ≡ ok expected)
        × (count_problems n records expected ≡ problems)
  unfolding shape_problems
  shape-eq-ok fixture records h =
      let (expected, needed, made) = >>=-eq-ok (expected_counts n fixture) _ h in
      (expected, needed, ok-injective made)

  module _ (rows : List (Row n)) (name : Value n) (case : Case n) where
    from_rows :
        (b f i t : Row n) (of_shape : List (Problem n))
        → Only n "benchmark" name rows b
        → Only n "placement_fixture" name rows f
        → Only n "placement_idle" name rows i
        → Only n "placement_teardown" name rows t
        → shape_problems n (some f) case.records ≡ ok of_shape
        → benchmark_problems n benchmark_fields b ≡ []
        → fixture_problems n f ++ idle_problems n i ++ teardown_problems n t ≡ []
        → of_shape ≡ []
        → IsCounted rows name case
    unfolding fixture_problems idle_problems teardown_problems
    from_rows b f i t of_shape ob of oi ot shaped hb hfit hs =
        let (hfi, ht) = append-eq-nil (fixture_problems n f ++ idle_problems n i) _ hfit in
        let (hf, hi) = append-eq-nil (fixture_problems n f) _ hfi in
        let (quiet, pending) = or_false _ _ (when-nil n _ _ hi) in
        let (live, later) =
          append-eq-nil (when n (differs n (get "live" t) (int (pos 0))) _) _ ht in
        let (expected, needed, made) = shape-eq-ok f case.records shaped in
        record {
          benchmark = b;
          only_benchmark = ob;
          whole_fields = benchmark_problems-nil benchmark_fields b hb;
          fixture = f;
          only_fixture = of;
          none_refused = differs-false _ _ (when-nil n _ _ hf);
          idle = i;
          only_idle = oi;
          quiet = of_not _ quiet;
          nothing_pending = differs-false _ _ pending;
          teardown = t;
          only_teardown = ot;
          all_freed = differs-false _ _ (when-nil n _ _ live);
          none_refused_later = differs-false _ _ (when-nil n _ _ later);
          expected = expected;
          needed = needed;
          counts = count_problems-nil case.records expected (made ∙ hs);
        }

    -- The six groups of problems, in the order in which `parse_case` joins them.
    from_problems :
        (of_shape of_allocations of_walk : List (Problem n))
        → shape_problems n (one n "placement_fixture" name rows).0 case.records ≡ ok of_shape
        → ((one n "benchmark" name rows).1
              ++ from_row n (one n "benchmark" name rows).0 (benchmark_problems n benchmark_fields))
            ++ ((one n "placement_fixture" name rows).1
                ++ (one n "placement_idle" name rows).1
                ++ (one n "placement_teardown" name rows).1)
            ++ (from_row n (one n "placement_fixture" name rows).0 (fixture_problems n)
                ++ from_row n (one n "placement_idle" name rows).0 (idle_problems n)
                ++ from_row n (one n "placement_teardown" name rows).0 (teardown_problems n))
            ++ of_shape
            ++ of_allocations
            ++ of_walk
          ≡ []
        → IsCounted rows name case
    unfolding from_row
    from_problems of_shape of_allocations of_walk shaped h =
        let h5 = append-eq-nil _ of_walk h in
        let h4 = append-eq-nil _ of_allocations h5.0 in
        let h3 = append-eq-nil _ of_shape h4.0 in
        let h2 = append-eq-nil _ _ h3.0 in
        let h1 = append-eq-nil _ _ h2.0 in
        let hb = append-eq-nil _ _ h1.0 in
        let ht = append-eq-nil _ _ h1.1 in
        let hi = append-eq-nil _ _ ht.0 in
        let (b, ob, eb) = one-nil n "benchmark" name rows hb.0 in
        let (f, of, ef) = one-nil n "placement_fixture" name rows hi.0 in
        let (i, oi, ei) = one-nil n "placement_idle" name rows hi.1 in
        let (t, ot, et) = one-nil n "placement_teardown" name rows ht.1 in
        from_rows b f i t of_shape ob of oi ot
          (subst (λ o. shape_problems n o case.records ≡ ok of_shape) ef shaped)
          (subst (λ o. from_row n o (benchmark_problems n benchmark_fields) ≡ []) eb hb.1)
          (subst
            (λ o.
              fixture_problems n f ++ idle_problems n i ++ from_row n o (teardown_problems n) ≡ [])
            et
            (subst
              (λ o.
                fixture_problems n f
                  ++ from_row n o (idle_problems n)
                  ++ from_row n (one n "placement_teardown" name rows).0 (teardown_problems n)
                ≡ [])
              ei
              (subst
                (λ o.
                  from_row n o (fixture_problems n)
                    ++ from_row n (one n "placement_idle" name rows).0 (idle_problems n)
                    ++ from_row n (one n "placement_teardown" name rows).0 (teardown_problems n)
                  ≡ [])
                ef h2.1)))
          h3.1

  -- A case that `parse_case` reads without a problem counts: it has one benchmark row with whole
  -- numbers, one fixture row without refusals, one idle row that is quiet with nothing pending, one
  -- teardown row with nothing live and nothing refused, and the record counts that its shape needs.
  pub parse_case-IsCounted :
      (rows : List (Row n)) (name : Value n) (intervening_walk : Option ℤ) (case : Case n)
      → parse_case n rows name intervening_walk ≡ ok (case, [])
      → IsCounted rows name case
  unfolding parse_case
  parse_case-IsCounted rows name w case h =
      let (records, read, h1) =
        >>=-eq-ok (read_records n (of_case_kind n "placement_records" name rows) []) _ h in
      let (of_shape, shaped, h2) =
        >>=-eq-ok (shape_problems n (one n "placement_fixture" name rows).0 records) _ h1 in
      let (allocated, found, h3) =
        >>=-eq-ok (read_allocations n (of_case_kind n "placement_allocations" name rows)) _ h2 in
      let (walked, timed, h4) = >>=-eq-ok (read_walk n w (asked_walk n w name rows).0) _ h3 in
      let made = ok-injective h4 in
      from_problems rows name case of_shape allocated.1 ((asked_walk n w name rows).1 ++ walked.1)
        (subst (λ r. shape_problems n (one n "placement_fixture" name rows).0 r ≡ ok of_shape)
          (ap (λ (p : Case n × List (Problem n)). p.0.records) made) shaped)
        (ap (λ (p : Case n × List (Problem n)). p.1) made)
