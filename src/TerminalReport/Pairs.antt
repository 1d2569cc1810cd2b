-- ===== src/TerminalReport/Pairs.antt =====
-- The pairing of the rounds of two applications.
use telar.TerminalReport.Runs.{Quantiles}
use telar.TerminalReport.Rounds.{
  compare-IsCompared, figures-length, figures-AreFigures, AreFigures, IsCompared,
}
use telar.TerminalReport.Ordered.{
  Ascending, sorted_rounds-Ascending, select-Ascending, is_round-sorted, is_round-select,
}
use telar.TerminalReport.Paired.{
  sorted_rounds, figures, is_round, rounds_of, common, paired_statistics, quantile_entry,
  pairing_of, Comparison, Pairing, Runs, Maths,
}
use telar.Number.{Number}
use telar.Prelude.{
  select, ap, ◌&&◌, [], ◌∷◌, some-injective, ◌↔◌, ◌≢◌, ◌==◌, ℕ, ◌≡◌, refl, sym, ◌∙◌, subst,
  Bool-cases, inl, inr, Bool, false, not, Option, none, some, List, length, arith, ==_iff,
}
use telar.Prelude.Int.{ℤ}
use telar.Prelude.Result.{ok-injective, >>=-eq-ok, ok}

not_empty : (k : ℕ) → (k == 0) ≡ false → k ≢ 0
not_empty k h e = ground arith

length-nil : (rounds : List ℤ) → length rounds ≡ 0 → rounds ≡ []
length-nil [] h = refl
length-nil (a ∷ rounds) h = absurd (omega (arith, h))

module _ (n : Number) (is_finite : n.Num → Bool) (maths : Maths n)
    (reference candidate : Runs n is_finite) where
  -- A comparison of the figures that `read` takes from the runs of the rounds.
  pub record IsComparison (read : Quantiles n is_finite → n.Num) (rounds : List ℤ)
      (c : Comparison n is_finite) : Type 0 where
    pub baseline : List n.Num
    pub measured : List n.Num
    pub before : AreFigures n is_finite read reference rounds baseline
    pub after : AreFigures n is_finite read candidate rounds measured
    pub compared : IsCompared n is_finite (length rounds) baseline measured c

  -- The rounds of both are compared, and the rounds of one alone are set apart, each once and in
  -- order.
  pub record IsPairing (p : Pairing n is_finite) : Type 0 where
    pub both :
        (a : ℤ)
        → is_round p.rounds a ≡ (
            is_round (rounds_of n is_finite reference) a
            && is_round (rounds_of n is_finite candidate) a)
    pub reference_only :
        (a : ℤ)
        → is_round p.unpaired_reference a ≡ (
            is_round (rounds_of n is_finite reference) a
            && not (is_round (rounds_of n is_finite candidate) a))
    pub candidate_only :
        (a : ℤ)
        → is_round p.unpaired_candidate a ≡ (
            is_round (rounds_of n is_finite candidate) a
            && not (is_round (rounds_of n is_finite reference) a))
    pub ordered :
        Ascending p.rounds × Ascending p.unpaired_reference × Ascending p.unpaired_candidate
    pub compared_p50 :
        (c : Comparison n is_finite) → p.p50 ≡ some c → IsComparison (λ q. q.p50_ms) p.rounds c
    pub compared_p95 :
        (c : Comparison n is_finite) → p.p95 ≡ some c → IsComparison (λ q. q.p95_ms) p.rounds c
    pub compared_if : (p.p50 ≡ none) ↔ (p.rounds ≡ [])
    pub compared_also_if : (p.p95 ≡ none) ↔ (p.rounds ≡ [])

  no_comparison :
      (c : Comparison n is_finite) → ◌≢◌ {A = Option (Comparison n is_finite)} none (some c)
  no_comparison c e = cc

  -- The rounds of some runs that pass a test.
  selected :
      (q : ℤ → Bool) (runs : Runs n is_finite) (a : ℤ)
      → is_round (select q (sorted_rounds (rounds_of n is_finite runs))) a
        ≡ (is_round (rounds_of n is_finite runs) a && q a)
  selected q runs a =
      is_round-select q (sorted_rounds (rounds_of n is_finite runs)) a
      ∙ ap (λ b. b && q a) (is_round-sorted (rounds_of n is_finite runs) a)

  selected-Ascending :
      (q : ℤ → Bool) (runs : Runs n is_finite)
      → Ascending (select q (sorted_rounds (rounds_of n is_finite runs)))
  selected-Ascending q runs =
      select-Ascending q (sorted_rounds (rounds_of n is_finite runs))
        (sorted_rounds-Ascending (rounds_of n is_finite runs))

  pairing_of-IsPairing :
      (p50 p95 : Option (Comparison n is_finite))
      → ((c : Comparison n is_finite)
          → p50 ≡ some c
          → IsComparison (λ q. q.p50_ms) (common n is_finite maths reference candidate) c)
      → ((c : Comparison n is_finite)
          → p95 ≡ some c
          → IsComparison (λ q. q.p95_ms) (common n is_finite maths reference candidate) c)
      → ((p50 ≡ none) ↔ (common n is_finite maths reference candidate ≡ []))
      → ((p95 ≡ none) ↔ (common n is_finite maths reference candidate ≡ []))
      → IsPairing (pairing_of n is_finite maths reference candidate p50 p95)
  unfolding pairing_of
  pairing_of-IsPairing p50 p95 c50 c95 iff50 iff95 = record {
    both = selected _ reference;
    reference_only = selected _ reference;
    candidate_only = selected _ candidate;
    ordered = (
      selected-Ascending _ reference,
      selected-Ascending _ reference,
      selected-Ascending _ candidate,
    );
    compared_p50 = c50;
    compared_p95 = c95;
    compared_if = iff50;
    compared_also_if = iff95;
  }

  entry-IsComparison :
      (read : Quantiles n is_finite → n.Num) (rounds : List ℤ) (c : Comparison n is_finite)
      → quantile_entry n is_finite maths read reference candidate rounds ≡ ok c
      → IsComparison read rounds c
  unfolding quantile_entry
  entry-IsComparison read rounds c h =
      let (baseline, a, h1) = >>=-eq-ok (figures n is_finite read reference rounds) _ h in
      let (measured, b, h2) = >>=-eq-ok (figures n is_finite read candidate rounds) _ h1 in
      let one = figures-length n is_finite read reference rounds baseline a in
      let two = figures-length n is_finite read candidate rounds measured b in
      record {
        baseline = baseline;
        measured = measured;
        before = figures-AreFigures n is_finite read reference rounds baseline a;
        after = figures-AreFigures n is_finite read candidate rounds measured b;
        compared =
            subst (λ k. IsCompared n is_finite k baseline measured c) one
              (compare-IsCompared n is_finite maths baseline measured c (one ∙ sym two) h2);
      }

  -- Where a comparison is made, there are rounds to compare.
  made :
      (c : Comparison n is_finite)
      → (length (common n is_finite maths reference candidate) == 0) ≡ false
      → (◌≡◌ {A = Option (Comparison n is_finite)} (some c) none)
        ↔ (common n is_finite maths reference candidate ≡ [])
  made c found =
      (λ e. absurd (no_comparison c (sym e)), λ e. absurd (not_empty _ found (ap length e)))

  -- What `paired_statistics` returns: the rounds that both applications have, those that only the
  -- reference has and those that only the candidate has, each list exactly these rounds, once each and
  -- in order. A comparison of the medians, and one of the 95th percentiles, is made if and only if
  -- there is a common round. It has for each of these the candidate's figure less the reference's, of
  -- the last run with that round, with the median, the least and the greatest of these differences;
  -- no interval for a single round, and one from two rounds on, for the ratio too where there is a
  -- ratio.
  pub paired_statistics-IsPairing :
      (p : Pairing n is_finite)
      → paired_statistics n is_finite maths reference candidate ≡ ok p
      → IsPairing p
  unfolding paired_statistics
  paired_statistics-IsPairing p h =
      let rounds = common n is_finite maths reference candidate in
      elim (Bool-cases (length rounds == 0)) [
        | inl empty ↦
            let none_common : rounds ≡ [] = length-nil rounds ((==_iff _ _).0 empty) in
            subst IsPairing (ok-injective (rw (empty, paired_statistics) at h)) (
              pairing_of-IsPairing none none (λ c e. absurd (no_comparison c e))
                (λ c e. absurd (no_comparison c e)) (λ e. none_common, λ e. refl)
                (λ e. none_common, λ e. refl))
        | inr found ↦
            let h0 = rw (found, paired_statistics) at h in
            let (p50, a, h1) =
              >>=-eq-ok
                (quantile_entry n is_finite maths (λ q. q.p50_ms) reference candidate rounds) _
                h0 in
            let (p95, b, h2) =
              >>=-eq-ok
                (quantile_entry n is_finite maths (λ q. q.p95_ms) reference candidate rounds) _
                h1 in
            subst IsPairing (ok-injective h2) (
              pairing_of-IsPairing (some p50) (some p95)
                (λ c e.
                  subst (IsComparison (λ q. q.p50_ms) rounds) (some-injective e)
                    (entry-IsComparison _ rounds p50 a))
                (λ c e.
                  subst (IsComparison (λ q. q.p95_ms) rounds) (some-injective e)
                    (entry-IsComparison _ rounds p95 b))
                (made p50 found) (made p95 found))
      ]
