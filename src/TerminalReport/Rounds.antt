-- ===== src/TerminalReport/Rounds.antt =====
-- Which rounds are compared, and how many differences and intervals a comparison has.
use telar.Statistics.{maximum, minimum, median}
use telar.TerminalReport.Runs.{Measured, raised, Quantiles}
use telar.Number.{Number}
use telar.TerminalReport.Paired.{
  resampled, log_ratios, interval, compare, ratio_of, drawn_intervals, intervals, Maths, run_of,
  Runs, Comparison, zip_with, figures,
}
use telar.Prelude.{
  some-injective, Option-cases, ◌++◌, ltb→lt, ◌↔◌, ◌≢◌, ℕ, suc, ◌<◌, ◌≤◌, ◌≡◌, refl, ap, sym, ◌∙◌,
  subst, Bool-cases, inl, inr, Bool, true, false, Option, none, some, List, [], ◌∷◌, map, length,
  All, arith, ltb,
}
use telar.Prelude.Int.{eq_ℤ, ℤ}
use telar.Prelude.Result.{
  or_raise-eq-ok, value_error, key_error, or_raise, >>=-eq-ok, ok-injective, ok,
}

at_least_two : (k : ℕ) → ltb k 2 ≡ false → 2 ≤ k
at_least_two k h = ground arith

module _ (n : Number) (is_finite : n.Num → Bool) where
  -- The run that stands for a round: the last of the runs that are of this round.
  pub record IsLast (round : ℤ) (runs : Runs n is_finite) (m : Measured n is_finite) : Type 0 where
    pub before : Runs n is_finite
    pub behind : Runs n is_finite
    pub split : runs ≡ before ++ m ∷ behind
    pub of_round : eq_ℤ m.identity.round round ≡ true
    pub none_behind : All (λ (k : Measured n is_finite). eq_ℤ k.identity.round round ≡ false) behind

  run_of-none :
      (round : ℤ) (runs : Runs n is_finite)
      → run_of n is_finite round runs ≡ none
      → All (λ (k : Measured n is_finite). eq_ℤ k.identity.round round ≡ false) runs
  unfolding run_of
  run_of-none round [] h = tt
  run_of-none round (m ∷ runs) h = elim (Option-cases (run_of n is_finite round runs)) [
    | inr (later, e) ↦ cc (rw (e, run_of) at h)
    | inl e ↦ elim (Bool-cases (eq_ℤ m.identity.round round)) [
      | inl same ↦ cc (rw (e, same, run_of) at h)
      | inr other ↦ (other, run_of-none round runs e)
    ]
  ]

  run_of-IsLast :
      (round : ℤ) (runs : Runs n is_finite) (m : Measured n is_finite)
      → run_of n is_finite round runs ≡ some m
      → IsLast round runs m
  unfolding run_of
  run_of-IsLast round [] m h = cc
  run_of-IsLast round (k ∷ runs) m h = elim (Option-cases (run_of n is_finite round runs)) [
    | inr (later, e) ↦
        let l = run_of-IsLast round runs m (e ∙ (rw (e, run_of) at h)) in
        record {
          before = k ∷ l.before;
          behind = l.behind;
          split = ap (λ r. k ∷ r) l.split;
          of_round = l.of_round;
          none_behind = l.none_behind;
        }
    | inl e ↦ elim (Bool-cases (eq_ℤ k.identity.round round)) [
      | inr other ↦ cc (rw (e, other, run_of) at h)
      | inl same ↦
          subst (IsLast round (k ∷ runs)) (some-injective (rw (e, same, run_of) at h)) (record {
            before = [];
            behind = runs;
            split = refl;
            of_round = same;
            none_behind = run_of-none round runs e;
          })
    ]
  ]

  -- A figure of each of the rounds, of the run that stands for it.
  abbrev pub AreFigures :
      (Quantiles n is_finite → n.Num) → Runs n is_finite → List ℤ → List n.Num → Type 0
  AreFigures read runs [] [] = Unit
  AreFigures read runs [] (x ∷ xs) = ⊥
  AreFigures read runs (round ∷ rounds) [] = ⊥
  AreFigures read runs (round ∷ rounds) (x ∷ xs) =
      ((m : Measured n is_finite) × IsLast round runs m × (x ≡ read m.summary))
      × AreFigures read runs rounds xs

  pub figures-AreFigures :
      (read : Quantiles n is_finite → n.Num) (runs : Runs n is_finite) (rounds : List ℤ)
      (xs : List n.Num)
      → figures n is_finite read runs rounds ≡ ok xs
      → AreFigures read runs rounds xs
  unfolding figures
  figures-AreFigures read runs [] xs h = subst (AreFigures read runs []) (ok-injective h) tt
  figures-AreFigures read runs (round ∷ rounds) xs h =
      let (m, a, h1) =
        >>=-eq-ok (or_raise (run_of n is_finite round runs) (raised key_error)) _ h in
      let (rest, b, h2) = >>=-eq-ok (figures n is_finite read runs rounds) _ h1 in
      subst (AreFigures read runs (round ∷ rounds)) (ok-injective h2) (
        (m, run_of-IsLast round runs m (or_raise-eq-ok _ _ a), refl),
        figures-AreFigures read runs rounds rest b,
      )

  -- The differences of two lists of figures.
  abbrev pub AreDeltas : List n.Num → List n.Num → List n.Num → Type 0
  AreDeltas [] [] [] = Unit
  AreDeltas (x ∷ xs) (y ∷ ys) (d ∷ ds) = (d ≡ n.sub y x) × AreDeltas xs ys ds
  AreDeltas _ _ _ = ⊥

  zip_with-AreDeltas :
      (xs ys : List n.Num)
      → length xs ≡ length ys
      → AreDeltas xs ys (zip_with n is_finite (λ before after. n.sub after before) xs ys)
  unfolding zip_with
  zip_with-AreDeltas [] [] e = tt
  zip_with-AreDeltas [] (y ∷ ys) e = absurd (omega (arith, e))
  zip_with-AreDeltas (x ∷ xs) [] e = absurd (omega (arith, e))
  zip_with-AreDeltas (x ∷ xs) (y ∷ ys) e = (refl, zip_with-AreDeltas xs ys (omega (arith, e)))

  pub figures-length :
      (read : Quantiles n is_finite → n.Num) (runs : Runs n is_finite) (rounds : List ℤ)
      (xs : List n.Num)
      → figures n is_finite read runs rounds ≡ ok xs
      → length xs ≡ length rounds
  unfolding figures
  figures-length read runs [] xs h = ap length (sym (ok-injective h))
  figures-length read runs (round ∷ rounds) xs h =
      let (m, a, h1) =
        >>=-eq-ok (or_raise (run_of n is_finite round runs) (raised key_error)) _ h in
      let (rest, b, h2) = >>=-eq-ok (figures n is_finite read runs rounds) _ h1 in
      ap length (sym (ok-injective h2)) ∙ ap suc (figures-length read runs rounds rest b)

  length-zip_with :
      (f : n.Num → n.Num → n.Num) (xs ys : List n.Num)
      → length xs ≡ length ys
      → length (zip_with n is_finite f xs ys) ≡ length xs
  unfolding zip_with
  length-zip_with f [] ys e = refl
  length-zip_with f (x ∷ xs) [] e = absurd (omega (arith, e))
  length-zip_with f (x ∷ xs) (y ∷ ys) e = ap suc (length-zip_with f xs ys (omega (arith, e)))

  -- A comparison has the differences of the figures, with their median, least and greatest, and
  -- intervals from two rounds on.
  pub record IsCompared (count : ℕ) (baseline measured : List n.Num) (c : Comparison n is_finite)
      : Type 0 where
    pub sizes : (length baseline ≡ count) × (length measured ≡ count)
    pub deltas : AreDeltas baseline measured c.deltas
    pub middle : median n c.deltas ≡ some c.median_delta
    pub least : minimum n c.deltas ≡ some c.least_delta
    pub greatest : maximum n c.deltas ≡ some c.greatest_delta
    pub single : count < 2 → (c.delta_interval ≡ none) × (c.ratio_interval ≡ none)
    pub several : 2 ≤ count → c.delta_interval ≢ none
    pub ratios : 2 ≤ count → (c.ratio ≡ none) ↔ (c.ratio_interval ≡ none)

  module _ (maths : Maths n) where
    -- The intervals of some differences.
    record HasIntervals (count : ℕ) (logs : Option (List n.Num))
        (found : Option (n.Num × n.Num) × Option (n.Num × n.Num)) : Type 0 where
      single : count < 2 → (found.0 ≡ none) × (found.1 ≡ none)
      several : 2 ≤ count → found.0 ≢ none
      ratios : 2 ≤ count → (logs ≡ none) ↔ (found.1 ≡ none)

    drawn-HasIntervals :
        (differences : List n.Num) (logs : Option (List n.Num))
        (found : Option (n.Num × n.Num) × Option (n.Num × n.Num))
        → drawn_intervals n is_finite maths differences logs ≡ ok found
        → 2 ≤ length differences
        → HasIntervals (length differences) logs found
    unfolding drawn_intervals
    drawn-HasIntervals differences none found h many =
        let (delta, a, h1) =
          >>=-eq-ok
            (interval n is_finite maths
              (map (resampled n is_finite maths differences) (maths.draws (length differences))))
            _ h in
        subst (HasIntervals (length differences) none) (ok-injective h1) (record {
          single = λ k. absurd (omega (arith, k, many));
          several = λ k e. cc;
          ratios = λ k. (λ e. refl, λ e. refl);
        })
    drawn-HasIntervals differences (some ratios) found h many =
        let (delta, a, h1) =
          >>=-eq-ok
            (interval n is_finite maths
              (map (resampled n is_finite maths differences) (maths.draws (length differences))))
            _ h in
        let (ratio, b, h2) =
          >>=-eq-ok
            (interval n is_finite maths (
              map (λ d. maths.exp (resampled n is_finite maths ratios d))
                (maths.draws (length differences))))
            _ h1 in
        subst (HasIntervals (length differences) (some ratios)) (ok-injective h2) (record {
          single = λ k. absurd (omega (arith, k, many));
          several = λ k e. cc;
          ratios = λ k. (λ e. cc, λ e. cc);
        })

    intervals-HasIntervals :
        (differences : List n.Num) (logs : Option (List n.Num))
        (found : Option (n.Num × n.Num) × Option (n.Num × n.Num))
        → intervals n is_finite maths differences logs ≡ ok found
        → HasIntervals (length differences) logs found
    unfolding intervals
    intervals-HasIntervals differences logs found h =
        elim (Bool-cases (ltb (length differences) 2)) [
          | inl few ↦
              subst (HasIntervals (length differences) logs)
                (ok-injective (rw (few, intervals) at h))
                (record {
                  single = λ k. (refl, refl);
                  several = λ k. absurd (omega (arith, k, ltb→lt _ _ few));
                  ratios = λ k. absurd (omega (arith, k, ltb→lt _ _ few));
                })
          | inr many ↦
              drawn-HasIntervals differences logs found (rw (many, intervals) at h)
                (at_least_two _ many)
        ]

    ratio_none :
        (logs : Option (List n.Num)) → (logs ≡ none) ↔ (ratio_of n is_finite maths logs ≡ none)
    ratio_none none = (λ e. refl, λ e. refl)
    ratio_none (some ratios) = (λ e. cc, λ e. cc)

    pub compare-IsCompared :
        (baseline measured : List n.Num) (c : Comparison n is_finite)
        → length baseline ≡ length measured
        → compare n is_finite maths baseline measured ≡ ok c
        → IsCompared (length baseline) baseline measured c
    unfolding compare
    compare-IsCompared baseline measured c e h =
        let differences =
          zip_with n is_finite (λ before after. n.sub after before) baseline measured in
        let logs = log_ratios n is_finite maths baseline measured in
        let (middle, a, h1) =
          >>=-eq-ok (or_raise (median n differences) (raised value_error)) _ h in
        let (least, b, h2) =
          >>=-eq-ok (or_raise (minimum n differences) (raised value_error)) _ h1 in
        let (most, d, h3) =
          >>=-eq-ok (or_raise (maximum n differences) (raised value_error)) _ h2 in
        let (found, f, h4) = >>=-eq-ok (intervals n is_finite maths differences logs) _ h3 in
        let has = intervals-HasIntervals differences logs found f in
        let size = length-zip_with (λ before after. n.sub after before) baseline measured e in
        subst (IsCompared (length baseline) baseline measured) (ok-injective h4) (record {
          sizes = (refl, sym e);
          deltas = zip_with-AreDeltas baseline measured e;
          middle = or_raise-eq-ok _ _ a;
          least = or_raise-eq-ok _ _ b;
          greatest = or_raise-eq-ok _ _ d;
          single = λ k. has.single (omega (arith, size, k));
          several = λ k. has.several (omega (arith, size, k));
          ratios = λ k. (
            λ r. (has.ratios (omega (arith, size, k))).0 ((ratio_none logs).1 r),
            λ r. (ratio_none logs).0 ((has.ratios (omega (arith, size, k))).1 r),
          );
        })
