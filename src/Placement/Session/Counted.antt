-- ===== src/Placement/Session/Counted.antt =====
-- Every run that is kept as counted did end well and did report what it must.
use telar.Placement.Order.{ordered}
use telar.Prelude.{
  Option-cases, ◌&&◌, Bool-cases, List, [], ◌∷◌, true, refl, ◌≡◌, ℕ, suc, zero, Option, String, All,
  All-append, inl, inr, ap, subst, arith,
}
use telar.Prelude.Int.{pos, eq_ℤ, eq_of_parts}
use telar.Prelude.Result.{Result-cases, ok, >>=-eq-ok, ok-injective}
use telar.Number.{Number}
use telar.Placement.{Variant}
use telar.Placement.Validate.{Settings}
use telar.Placement.Run.Output.{parse_run}
use telar.Placement.Run.Silent.{append-eq-nil}
use telar.Placement.Run.Whole.{Counts, parse_run-Counts}
use telar.Placement.Session.{
  no_results, Ending, completed, timeout_expired, os_error, Report, Entry, Results, ending_problems,
  entry_of, none_left, add_run, run_one, run_order, run_rounds,
}

module _ (n : Number) where
  ending_problems-nil :
      (ending : Ending) (tail : Option String)
      → ending_problems n ending tail ≡ []
      → ending ≡ completed (pos 0)
  unfolding ending_problems
  ending_problems-nil (os_error text) tail h = cc
  ending_problems-nil timeout_expired tail h = cc
  ending_problems-nil (completed status) tail h = elim (Bool-cases (eq_ℤ status (pos 0))) [
    | inl e ↦ ap completed (eq_of_parts status (pos 0) (ground (arith, e)))
    | inr e ↦ cc (rw (e, ending_problems) at h)
  ]

  none_left-nil : {A : Type 0} (xs : List A) → none_left n xs ≡ true → xs ≡ []
  none_left-nil [] h = refl
  none_left-nil (x ∷ xs) h = cc

  module _ (world : ℕ → ℕ → Variant → Report n) (settings : Settings n) where
    -- A kept run that counts ended with status 0 and printed all that a run must report.
    pub record IsBacked (e : Entry n) : Type 0 where
      pub ended : (world e.round e.position e.variant).ending ≡ completed (pos 0)
      pub reported :
          Counts n (world e.round e.position e.variant).stdout e.variant settings e.parsed

    abbrev pub Backed : Entry n → Type 0
    Backed e = e.counts ≡ true → IsBacked e

    run_one-Backed :
        (round position : ℕ) (variant : Variant) (e : Entry n)
        → run_one n world settings round position variant ≡ ok e
        → Backed e
    unfolding run_one entry_of
    run_one-Backed round position variant e h =
        let report = world round position variant in
        let ((parsed, problems), read, made) =
          >>=-eq-ok (parse_run n report.stdout variant settings) _ h in
        subst Backed (ok-injective made) (λ counts.
          let (ended, clean) =
            append-eq-nil (ending_problems n report.ending report.last_error_line) problems
              (none_left-nil _ counts) in
          record {
            ended = ending_problems-nil report.ending report.last_error_line ended;
            reported = parse_run-Counts n report.stdout variant settings parsed (
                subst (λ ps. parse_run n report.stdout variant settings ≡ ok (parsed, ps)) clean
                  read);
          })

    add_run-Backed :
        (e : Entry n) (results : Results n)
        → Backed e
        → All Backed results.runs
        → All Backed (add_run n e results).runs
    unfolding add_run
    add_run-Backed e results b all = elim (Bool-cases (none_left n results.layout && e.counts)) [
      | inl c ↦ rw (c, add_run) (All-append Backed results.runs (e ∷ []) all (b, tt))
      | inr c ↦ rw (c, add_run) (All-append Backed results.runs (e ∷ []) all (b, tt))
    ]

    run_order-Backed :
        (round position : ℕ) (order : List Variant) (results : Results n)
        → All Backed results.runs
        → All Backed (run_order n world settings round position order results).0.runs
    unfolding run_order
    run_order-Backed round position [] results all = all
    run_order-Backed round position (variant ∷ order) results all =
        elim (Result-cases (run_one n world settings round position variant)) [
          | inl (entry, e) ↦
              rw (e, run_order)
                (run_order-Backed round (suc position) order (add_run n entry results) (
                  add_run-Backed entry results (run_one-Backed round position variant entry e) all))
          | inr (raised, e) ↦ rw (e, run_order) all
        ]

    run_rounds-Backed_from :
        (count round : ℕ) (variants : List Variant) (results : Results n)
        → All Backed results.runs
        → All Backed (run_rounds n world settings count round variants results).0.runs
    unfolding run_rounds
    run_rounds-Backed_from zero round variants results all = all
    run_rounds-Backed_from (suc count) round variants results all =
        elim (Result-cases (ordered variants round)) [
          | inl (order, e) ↦
              let kept = run_order-Backed round 0 order results all in
              elim (Option-cases (run_order n world settings round 0 order results).1) [
                | inl fine ↦
                    rw (e, fine, run_rounds)
                      (run_rounds-Backed_from count (suc round) variants
                        (run_order n world settings round 0 order results).0 kept)
                | inr (raised, bad) ↦ rw (e, bad, run_rounds) kept
              ]
          | inr (raised, e) ↦ rw (e, run_rounds) all
        ]

    -- Of the runs that the loop keeps, even where an exception ends it, each that counts is one
    -- whose process ended with status 0 and whose output reports what a counted run must report.
    pub run_rounds-Backed :
        (count : ℕ) (variants : List Variant)
        → All Backed (run_rounds n world settings count 0 variants (no_results n)).0.runs
    run_rounds-Backed count variants = run_rounds-Backed_from count 0 variants (no_results n) tt
