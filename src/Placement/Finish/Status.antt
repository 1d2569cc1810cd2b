-- ===== src/Placement/Finish/Status.antt =====
-- What the exit status 0 of `run` says.
use telar.Placement.Session.Rounds.{run_rounds-AreRounds, AreRounds}
use telar.Text.{Unicode}
use telar.Placement.Validate.{validate, Args, Settings}
use telar.Placement.Derive.{derive}
use telar.Placement.{build_failed, binary_not_executable, output_exists, Variant}
use telar.Placement.Finish.Agreement.{consistency-nil, AreAlike}
use telar.Placement.Session.{no_results, run_rounds, Report, Results, Entry, none_left}
use telar.Placement.Finish.{
  build_fails, unusable_binary, command_run, Place, exit_of, finish_run, loop_ended, consistency,
  exited, Exit, run_status, save, Saved, Digests,
}
use telar.Number.{Number}
use telar.Prelude.{
  of_not, or_false, Option-cases, ◌≢◌, some-injective, arith, String, ℕ, ◌||◌, ◌≡◌, refl, sym, ◌∙◌,
  ap, subst, Bool-cases, inl, inr, true, false, not, Option, none, some, List, [], ◌∷◌, any, All,
}
use telar.Prelude.Int.{pos_part}
use telar.Prelude.Result.{guard-eq-ok, ok-injective, >>=-eq-ok, Exception, Result, ok, err}

module _ (n : Number) (digests : Digests n) where
  none_left-nil : {A : Type 0} (xs : List A) → none_left n xs ≡ true → xs ≡ []
  none_left-nil [] h = refl
  none_left-nil (x ∷ xs) h = cc

  all_count :
      (runs : List (Entry n))
      → any (λ run. not run.counts) runs ≡ false
      → All (λ run. run.counts ≡ true) runs
  all_count [] h = tt
  all_count (run ∷ runs) h = let (a, b) = or_false _ _ h in (of_not _ a, all_count runs b)

  -- A run that ended well: its variants, its reference and its settings are those of the arguments;
  -- its runs are those of as many rounds as the arguments say, each with every variant once; every
  -- run counts and the runs agree, and the statistics are those of the saved runs.
  pub record IsSound (uni : Unicode) (args : Args n) (saved : Saved n digests) : Type 0 where
    pub checked : validate uni n args ≡ ok (saved.variants, saved.reference, saved.settings)
    pub rounds : AreRounds n (pos_part args.rounds) 0 saved.variants saved.results.runs
    pub complete : saved.complete ≡ true
    pub counted : All (λ run. run.counts ≡ true) saved.results.runs
    pub alike : AreAlike n digests saved.results.runs
    pub derived :
        derive n saved.variants saved.reference saved.settings saved.results.runs ≡ ok saved.derived

  -- What is saved is what the runs give.
  record IsSaved (variants : List Variant) (reference : String) (settings : Settings n)
      (results : Results n) (failure : Option Exception) (saved : Saved n digests) : Type 0 where
    of_run :
        ◌≡◌ {A = List Variant × String × Settings n × Results n}
          (saved.variants, saved.reference, saved.settings, saved.results)
          (variants, reference, settings, results)
    complete : saved.complete ≡ loop_ended n digests failure
    problems : saved.problems ≡ consistency n digests saved.results.runs
    derived :
        derive n saved.variants saved.reference saved.settings saved.results.runs ≡ ok saved.derived

  save-IsSaved :
      (variants : List Variant) (reference : String) (settings : Settings n) (results : Results n)
      (failure : Option Exception) (saved : Saved n digests)
      → save n digests variants reference settings (results, failure) ≡ ok saved
      → IsSaved variants reference settings results failure saved
  unfolding save
  save-IsSaved variants reference settings results failure saved h =
      let (derived, d, h1) = >>=-eq-ok (derive n variants reference settings results.runs) _ h in
      subst (IsSaved variants reference settings results failure) (ok-injective h1)
        (record { of_run = refl; complete = refl; problems = refl; derived = d })

  exited-apart : {a b : ℕ} → ◌≡◌ {A = Exit n digests} (exited a) (exited b) → a ≡ b
  exited-apart h = cc

  run_status-zero :
      (saved : Saved n digests)
      → run_status n digests saved ≡ exited 0
      → (any (λ run. not run.counts) saved.results.runs ≡ false) × (saved.problems ≡ [])
  unfolding run_status
  run_status-zero saved h =
      elim (Bool-cases
        (any (λ run. not run.counts) saved.results.runs || not (none_left n saved.problems))) [
          | inl bad ↦ absurd (omega (arith, exited-apart (rw (bad, run_status) at h)))
          | inr good ↦
              let (a, b) = or_false _ _ good in (a, none_left-nil saved.problems (of_not _ b))
        ]

  finish_run-saved :
      (failure : Option Exception) (result : Result Exception (Saved n digests))
      (saved : Saved n digests) (e : Exit n digests)
      → finish_run n digests failure result ≡ (some saved, e)
      → (result ≡ ok saved) × (exit_of n digests saved failure ≡ e)
  unfolding finish_run
  finish_run-saved failure (err x) saved e h = cc
  finish_run-saved failure (ok other) saved e h =
      let same : other ≡ saved = some-injective (ap (λ p. p.0) h) in
      (ap ok same, subst (λ s. exit_of n digests s failure ≡ e) same (ap (λ p. p.1) h))

  finish_run-none :
      (failure : Option Exception) (result : Result Exception (Saved n digests)) (k : ℕ)
      → finish_run n digests failure result ≢ (none, exited k)
  unfolding finish_run
  finish_run-none failure (err x) k h = cc
  finish_run-none failure (ok other) k h = cc

  exit_of-zero :
      (saved : Saved n digests) (failure : Option Exception)
      → exit_of n digests saved failure ≡ exited 0
      → (failure ≡ none) × (run_status n digests saved ≡ exited 0)
  unfolding exit_of
  exit_of-zero saved none h = (refl, h)
  exit_of-zero saved (some e) h = cc

  module _ (uni : Unicode) (place : Place n digests) (world : ℕ → ℕ → Variant → Report n) where
    -- The loop over the rounds, of arguments that are checked.
    abbrev loop_of : Args n → List Variant × String × Settings n → Results n × Option Exception
    loop_of args (variants, reference, settings) =
        run_rounds n world settings (pos_part args.rounds) 0 variants (no_results n)

    -- What a run that passed its checks hands on.
    command_run-loop :
        (args : Args n) (found : Option (Saved n digests) × Exit n digests)
        → command_run n digests uni place world args ≡ ok found
        → (checked : List Variant × String × Settings n) × (validate uni n args ≡ ok checked)
          × (finish_run n digests
                (loop_of args checked).1
                (save n digests checked.0 checked.1 checked.2 (loop_of args checked))
              ≡ found)
    unfolding command_run
    command_run-loop args found h =
        let (checked, a, h1) = >>=-eq-ok (validate uni n args) _ h in
        let (absent, h2) = guard-eq-ok place.output_is_there output_exists _ h1 in
        let (usable, h3) =
          guard-eq-ok (unusable_binary n digests place args.binary) binary_not_executable _ h2 in
        let (built, h4) = guard-eq-ok (build_fails n digests place args.binary) build_failed _ h3 in
        (checked, a, ok-injective h4)

    finish_run-IsSound :
        (args : Args n) (checked : List Variant × String × Settings n) (saved : Saved n digests)
        → validate uni n args ≡ ok checked
        → finish_run n digests
            (loop_of args checked).1
            (save n digests checked.0 checked.1 checked.2 (loop_of args checked))
          ≡ (some saved, exited 0)
        → IsSound uni args saved
    unfolding loop_ended
    finish_run-IsSound args (variants, reference, settings) saved valid h =
        let (s, e) = finish_run-saved _ _ saved (exited 0) h in
        let made = save-IsSaved variants reference settings _ _ saved s in
        let (ended, zero_status) = exit_of-zero saved _ e in
        let (counted, quiet) = run_status-zero saved zero_status in
        record {
          checked = valid ∙ ap (λ r. ok (r.0, r.1, r.2)) (sym made.of_run);
          rounds =
              subst
                (λ (r : List Variant × String × Settings n × Results n).
                  AreRounds n (pos_part args.rounds) 0 r.0 r.3.runs)
                (sym made.of_run)
                (run_rounds-AreRounds n world settings (pos_part args.rounds) variants ended);
          complete = made.complete ∙ ap (loop_ended n digests) ended;
          counted = all_count saved.results.runs counted;
          alike = consistency-nil n digests saved.results.runs (sym made.problems ∙ quiet);
          derived = made.derived;
        }

    -- `run` exits with the status 0 only after it has its results to save, and then its arguments
    -- pass their checks; the runs are those of as many rounds as the arguments say, numbered from 0,
    -- each with every variant once; every run counts, the runs share their metadata, their layout,
    -- their cases and the shapes of these, and the statistics saved are those that `derive` computes
    -- from the runs.
    pub command_run-zero :
        (args : Args n) (found : Option (Saved n digests))
        → command_run n digests uni place world args ≡ ok (found, exited 0)
        → (saved : Saved n digests) × (found ≡ some saved) × IsSound uni args saved
    command_run-zero args found h =
        let (checked, valid, f) = command_run-loop args (found, exited 0) h in
        elim (Option-cases found) [
          | inl e ↦ absurd (finish_run-none _ _ 0 (f ∙ ap (λ o. (o, exited 0)) e))
          | inr (saved, e) ↦ (
            saved,
            e,
            finish_run-IsSound args checked saved valid (f ∙ ap (λ o. (o, exited 0)) e),
          )
        ]
