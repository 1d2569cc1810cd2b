-- ===== src/TerminalReport/Distinct.antt =====
-- What holds of the runs that `load_runs` returns.
use telar.TerminalReport.Fields.{
  positive, read_samples-AreValues, quantiles-AreQuantiles, read_identity-IsIdentified, AreNumbers,
  AreQuantiles,
}
use telar.Prelude.Int.{pos, ltb_ℤ}
use telar.Json.{find, arr, text, int, Row, Items}
use telar.TerminalReport.Runs.{
  duplicate_run, no_runs, Identity, load_runs, read_runs, read_run, read_identity, quantiles,
  same_identity, is_mode, read_samples, Measured,
}
use telar.Number.{Number}
use telar.Prelude.{
  map, or_false, ◌==◌, subst, ℕ, ◌<◌, ◌≡◌, refl, String, Bool, true, false, some, List, [], ◌∷◌,
  length, any, All, All-mono, drop,
}
use telar.Prelude.Result.{ok-injective, guard-eq-ok, >>=-eq-ok, ok}

module _ (n : Number) (is_finite : n.Num → Bool) where
  open n use {Num, lt, of_nat, div}

  -- A run of a known mode, with at least one sample behind the warm-up and none that is negative: its
  -- identity is that of its row, and its values are the row's samples without the first ones, as many
  -- as the row's warm-up says.
  pub record IsMeasured (m : Measured n is_finite) : Type 0 where
    pub mode : is_mode m.identity.mode ≡ true
    pub round : ltb_ℤ m.identity.round (pos 0) ≡ false
    pub some_left : 0 < length m.values
    pub not_negative : All (λ x. lt x (of_nat 0) ≡ false) m.values
    pub warmup : ℕ
    pub samples : Items Num
    pub numbers : List Num
    pub case_of : find "case" m.raw ≡ some (text m.identity.case)
    pub mode_of : find "mode" m.raw ≡ some (text m.identity.mode)
    pub round_of : find "round" m.raw ≡ some (int m.identity.round)
    pub warmup_of : find "warmup" m.raw ≡ some (int (pos warmup))
    pub samples_in : find "gpu_ms" m.raw ≡ some (arr samples)
    pub numbers_of : AreNumbers n is_finite samples numbers
    pub left : m.values ≡ drop warmup numbers
    pub quantiles_of : AreQuantiles n is_finite m.values m.summary

  -- No two runs have one case, one mode and one round.
  abbrev pub AreDistinct : List (Measured n is_finite) → Type 0
  AreDistinct [] = Unit
  AreDistinct (m ∷ ms) = All (λ k. same_identity k.identity m.identity ≡ false) ms × AreDistinct ms

  read_run_sound :
      (source : String) (seen : List Identity) (row : Row n) (m : Measured n is_finite)
      → read_run n is_finite source seen row ≡ ok m
      → IsMeasured m
        × (any (same_identity m.identity) seen ≡ false)
        × (◌≡◌ {A = String × Row n} (m.source, m.raw) (source, row))
  unfolding read_run
  read_run_sound source seen row m h =
      let (i, a, h1) = >>=-eq-ok (read_identity n is_finite row) _ h in
      let (new, h2) = guard-eq-ok (any (same_identity i) seen) duplicate_run _ h1 in
      let (values, b, h3) = >>=-eq-ok (read_samples n is_finite row) _ h2 in
      let (summary, c, h4) = >>=-eq-ok (quantiles n is_finite values) _ h3 in
      let known = read_identity-IsIdentified n is_finite row i a in
      let read = read_samples-AreValues n is_finite row values b in
      subst
        (λ k.
          IsMeasured k
          × (any (same_identity k.identity) seen ≡ false)
          × (◌≡◌ {A = String × Row n} (k.source, k.raw) (source, row)))
        (ok-injective h4)
        (
          record {
            mode = known.known;
            round = known.not_negative;
            some_left = read.some_left;
            not_negative = read.not_negative;
            warmup = read.warmup;
            samples = read.samples;
            numbers = read.numbers;
            case_of = known.case_of;
            mode_of = known.mode_of;
            round_of = known.round_of;
            warmup_of = read.warmup_of;
            samples_in = read.samples_in;
            numbers_of = read.numbers_of;
            left = read.left;
            quantiles_of = quantiles-AreQuantiles n is_finite values summary c;
          },
          new,
          refl,
        )

  -- The rows of the runs, each with its file.
  abbrev pub rows_of : List (Measured n is_finite) → List (String × Row n)
  rows_of ms = map (λ m. (m.source, m.raw)) ms

  -- What is known of the runs that are read behind those seen.
  record AreRead (seen : List Identity) (rows : List (String × Row n))
      (ms : List (Measured n is_finite)) : Type 0 where
    measured : All IsMeasured ms
    distinct : AreDistinct ms
    fresh : All (λ m. any (same_identity m.identity) seen ≡ false) ms
    of_rows : rows_of ms ≡ rows

  read_runs-AreRead :
      (seen : List Identity) (rows : List (String × Row n)) (ms : List (Measured n is_finite))
      → read_runs n is_finite seen rows ≡ ok ms
      → AreRead seen rows ms
  unfolding read_runs
  read_runs-AreRead seen [] ms h =
      subst (AreRead seen []) (ok-injective h)
        (record { measured = tt; distinct = tt; fresh = tt; of_rows = refl })
  read_runs-AreRead seen ((source, row) ∷ rows) ms h =
      let (m, a, h1) = >>=-eq-ok (read_run n is_finite source seen row) _ h in
      let (rest, b, h2) = >>=-eq-ok (read_runs n is_finite (m.identity ∷ seen) rows) _ h1 in
      let (one, new, same) = read_run_sound source seen row m a in
      let more = read_runs-AreRead (m.identity ∷ seen) rows rest b in
      subst (AreRead seen ((source, row) ∷ rows)) (ok-injective h2) (record {
        measured = (one, more.measured);
        distinct = (All-mono (λ k f. (or_false _ _ f).0) rest more.fresh, more.distinct);
        fresh = (
          new,
          All-mono (λ k f. (or_false (same_identity k.identity m.identity) _ f).1) rest more.fresh,
        );
        of_rows = rw (same, more.of_rows) refl;
      })

  -- What `load_runs` returns is one run for each run of the files, in their order and with its file,
  -- at least one in all: no two have one case, one mode and one round; each has the case, the mode and
  -- the round of its row, the mode known and the round not negative; its values are the numbers of the
  -- row's samples behind as many as its warm-up says, at least one and none negative; and its median,
  -- 95th and 99th percentile and maximum are those of these values.
  pub load_runs-AreDistinct :
      (rows : List (String × Row n)) (ms : List (Measured n is_finite))
      → load_runs n is_finite rows ≡ ok ms
      → All IsMeasured ms × AreDistinct ms × (rows_of ms ≡ rows) × (0 < length ms)
  unfolding load_runs
  load_runs-AreDistinct rows ms h =
      let (runs, a, h1) = >>=-eq-ok (read_runs n is_finite [] rows) _ h in
      let (found, h2) = guard-eq-ok (length runs == 0) no_runs _ h1 in
      let read = read_runs-AreRead [] rows runs a in
      subst (λ l. All IsMeasured l × AreDistinct l × (rows_of l ≡ rows) × (0 < length l))
        (ok-injective h2) (read.measured, read.distinct, read.of_rows, positive _ found)
