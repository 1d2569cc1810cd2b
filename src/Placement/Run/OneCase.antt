-- ===== src/Placement/Run/OneCase.antt =====
-- `parse_case`
use telar.Json.{Row, Value, get}
use telar.Prelude.{String, Option, none, some, List, [], ◌∷◌, ◌++◌}
use telar.Prelude.Int.{ℤ}
use telar.Prelude.Result.{Result, ok, Exception, ◌>>=◌}
use telar.Number.{Number}
use mathlib.Core.Option
use telar.Placement.Run.{Problem, Case, benchmark_fields, shape_fields}
use telar.Placement.Run.Rows.{of_case_kind, pick, one}
use telar.Placement.Run.Checks.{
  benchmark_problems, fixture_problems, idle_problems, teardown_problems, from_row,
}
use telar.Placement.Run.RecordRows.{read_records, shape_problems}
use telar.Placement.Run.Figures.{read_allocations, read_walk}

module _ (n : Number) where
  open n use {Num, of_nat, of_int, sub, div}

  unfoldable pub placement_of :
      Option (Row n) → Option (Row n) → Option (Row n) → List (String × Value n)
  unfolding pick from_row
  placement_of fixture idle teardown =
      from_row n fixture
        ((pick n ("placed" ∷ "placed_bytes" ∷ "refused" ∷ "pack_region_used_bytes" ∷ [])))
      ++ from_row n idle ((pick n ("quiet" ∷ "sends_pending" ∷ [])))
      ++ from_row n teardown (λ row. ("live_at_teardown", get "live" row) ∷ [])

  -- The row of the walk, looked for only where a walk was asked for.
  unfoldable pub asked_walk : Option ℤ → Value n → List (Row n) → Option (Row n) × List (Problem n)
  unfolding one
  asked_walk none name rows = (none, [])
  asked_walk (some bytes) name rows = one n "intervening_walk" name rows

  unfoldable pub parse_case :
      List (Row n) → Value n → Option ℤ → Result Exception (Case n × List (Problem n))
  unfolding one of_case_kind pick benchmark_problems fixture_problems idle_problems
      teardown_problems from_row read_records shape_problems read_allocations asked_walk read_walk
      placement_of
  parse_case rows name intervening_walk = do
    let (benchmark, no_benchmark_row) = one n "benchmark" name rows
    let (fixture, no_fixture) = one n "placement_fixture" name rows
    let (idle, no_idle) = one n "placement_idle" name rows
    let (teardown, no_teardown) = one n "placement_teardown" name rows
    records ← read_records n (of_case_kind n "placement_records" name rows) []
    of_shape ← shape_problems n fixture records
    (allocations, of_allocations) ←
        read_allocations n (of_case_kind n "placement_allocations" name rows)
    let (walk_row, no_walk) = asked_walk intervening_walk name rows
    (walk, of_walk) ← read_walk n intervening_walk walk_row
    ok (
      record {
        benchmark = from_row n benchmark (pick n (benchmark_fields ++ "work_unit" ∷ []));
        shape = Option.map (pick n shape_fields) fixture;
        placement = placement_of fixture idle teardown;
        records = records;
        allocations = allocations;
        walk = walk;
      },
      (no_benchmark_row ++ from_row n benchmark (benchmark_problems n benchmark_fields))
          ++ (no_fixture ++ no_idle ++ no_teardown)
          ++ (from_row n fixture (fixture_problems n)
              ++ from_row n idle (idle_problems n)
              ++ from_row n teardown (teardown_problems n))
          ++ of_shape
          ++ of_allocations
          ++ (no_walk ++ of_walk),
    )
