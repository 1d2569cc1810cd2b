-- ===== src/Tests/Session.antt =====
-- Two rounds of two variants, of which one cannot be started.
use telar.Placement.Session.{Entry}
use telar.Placement.Derive.{derive, Tables}
use telar.Prelude.Result.{Exception, Result, ok, err}
use telar.Prelude.{List, refl, true, false, str_eq, [], ◌∷◌, none, refl, ℕ, All}
use telar.Prelude.Int.{pos}
use telar.Placement.{Variant}
use telar.Placement.Session.{Report, completed, os_error, run_rounds, no_results}
use telar.Placement.Session.Counted.{Backed, run_rounds-Backed}
use telar.Placement.Session.Rounds.{AreRounds, run_rounds-AreRounds}
use telar.Tests.Sample.{whole}
use telar.Tests.Placement.{settings, near, far}
use telar.Tests.Output.{stdout}

abbrev world : ℕ → ℕ → Variant → Report whole
world round position variant = elim (str_eq variant.name "near") [
  | true ↦ record { ending = completed (pos 0); stdout = stdout; last_error_line = none }
  | false ↦ record { ending = os_error "no such file"; stdout = []; last_error_line = none }
]

run_rounds-Backed_example :
    All
      (Backed whole world settings)
      (run_rounds whole world settings 2 0 (near ∷ far ∷ []) (no_results whole)).0.runs
run_rounds-Backed_example = run_rounds-Backed whole world settings 2 (near ∷ far ∷ [])

run_rounds-AreRounds_example :
    AreRounds whole 2 0
      (near ∷ far ∷ [])
      (run_rounds whole world settings 2 0 (near ∷ far ∷ []) (no_results whole)).0.runs
unfolding run_rounds telar.Placement.Order.ordered telar.Placement.Run.Output.parse_run
    telar.Json.py_eq telar.Json.py_mul telar.Json.py_sum telar.Json.as_number
run_rounds-AreRounds_example = run_rounds-AreRounds whole world settings 2 (near ∷ far ∷ []) refl

abbrev kept : List (Entry whole)
kept = (run_rounds whole world settings 2 0 (near ∷ far ∷ []) (no_results whole)).0.runs

abbrev tables_of : Result Exception (Tables whole) → Tables whole
tables_of (ok tables) = tables
tables_of (err raised) = []

abbrev tables : Tables whole
tables = tables_of (derive whole (near ∷ far ∷ []) "near" settings kept)
