-- ===== src/Placement/Session.antt =====
-- The loop of `command_run`: every variant once per round, and what is kept of each run.
pub mod Counted
pub mod Rounds
use telar.Prelude.{
  ℕ, zero, suc, ◌+◌, String, Bool, true, false, not, ◌&&◌, Option, none, some, List, [], ◌∷◌, ◌++◌,
  if◌then◌else◌,
}
use telar.Prelude.Int.{ℤ, pos, eq_ℤ}
use telar.Prelude.Result.{Result, ok, err, Exception, ◌>>=◌}
use telar.Number.{Number}
use telar.Json.{Value, Row}
use telar.Placement.{Variant}
use telar.Placement.Order.{ordered}
use telar.Placement.Validate.{Settings}
use telar.Placement.Run.{Line, Problem, Parsed}
use telar.Placement.Run.Output.{parse_run}

-- How a child process ends, as `execute` tells it.
pub data Ending : Type 0 where
  completed : ℤ → Ending
  timeout_expired : Ending
  os_error : String → Ending

module _ (n : Number) where
  -- What one run leaves: its end, its output, and the last line of its error output.
  pub record Report : Type 0 where
    pub ending : Ending
    pub stdout : List (Line n)
    pub last_error_line : Option String

  -- An entry of `results["runs"]`; its status is "ok" where `counts` holds.
  pub record Entry : Type 0 where
    pub round : ℕ
    pub position : ℕ
    pub variant : Variant
    pub counts : Bool
    pub problems : List (Problem n)
    pub parsed : Parsed n

  pub record Results : Type 0 where
    pub benchmark_metadata : Option (List (String × Value n))
    pub layout : List (Row n)
    pub runs : List Entry

  -- The results before the first run.
  abbrev pub no_results : Results
  no_results = record { benchmark_metadata = none; layout = []; runs = [] }

  unfoldable pub ending_problems : Ending → Option String → List (Problem n)
  ending_problems (os_error text) tail = Problem.could_not_start ∷ []
  ending_problems timeout_expired tail = Problem.timed_out ∷ []
  ending_problems (completed status) tail =
      if eq_ℤ status (pos 0) then [] else Problem.exited status tail ∷ []

  abbrev pub none_left : {A : Type 0} → List A → Bool
  none_left [] = true
  none_left (x ∷ xs) = false

  unfoldable pub entry_of : ℕ → ℕ → Variant → Parsed n → List (Problem n) → Entry
  entry_of round position variant parsed problems = record {
    round = round;
    position = position;
    variant = variant;
    counts = none_left problems;
    problems = problems;
    parsed = parsed;
  }

  -- The first run that counts gives the layout and the metadata.
  unfoldable pub add_run : Entry → Results → Results
  add_run entry results =
      let runs = results.runs ++ entry ∷ [] in
      if none_left results.layout && entry.counts
      then record {
        benchmark_metadata = entry.parsed.metadata;
        layout = entry.parsed.layout;
        runs = runs;
      }
      else record results { runs = runs }

  module _ (world : ℕ → ℕ → Variant → Report) (settings : Settings n) where
    -- One run, read and judged.
    unfoldable pub run_one : ℕ → ℕ → Variant → Result Exception Entry
    unfolding ending_problems entry_of
    run_one round position variant = do
      let report = world round position variant
      (parsed, problems) ← parse_run n report.stdout variant settings
      ok (
          entry_of round position variant parsed
            (ending_problems report.ending report.last_error_line ++ problems))

    -- The runs of a round from a position on. An exception ends the loop; what was kept stays.
    unfoldable pub run_order : ℕ → ℕ → List Variant → Results → Results × Option Exception
    unfolding run_one add_run
    run_order round position [] results = (results, none)
    run_order round position (variant ∷ order) results = elim (run_one round position variant) [
      | err raised ↦ (results, some raised)
      | ok entry ↦ run_order round (suc position) order (add_run entry results)
    ]

    -- `for round_index in range(args.rounds)`, with `count` rounds to go.
    unfoldable pub run_rounds : ℕ → ℕ → List Variant → Results → Results × Option Exception
    unfolding run_order
    run_rounds zero round variants results = (results, none)
    run_rounds (suc count) round variants results = elim (ordered variants round) [
      | err raised ↦ (results, some raised)
      | ok order ↦
          let after = run_order round 0 order results in
          elim after.1 [
            | some raised ↦ (after.0, some raised)
            | none ↦ run_rounds count (suc round) variants after.0
          ]
    ]
