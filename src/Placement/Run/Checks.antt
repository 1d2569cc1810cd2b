-- ===== src/Placement/Run/Checks.antt =====
-- The checks on the rows of one case.
use telar.Json.{int, is_true, get, is_int, Row}
use telar.Prelude.{String, not, ◌||◌, Option, none, some, List, [], ◌∷◌, ◌++◌}
use telar.Prelude.Int.{pos}
use telar.Number.{Number}
use telar.Placement.Run.{Problem}
use telar.Placement.Run.Rows.{when, differs}

module _ (n : Number) where
  open n use {Num, of_nat, of_int, sub, div}

  unfoldable pub benchmark_problems : List String → Row n → List (Problem n)
  unfolding when
  benchmark_problems [] row = []
  benchmark_problems (field ∷ fields) row =
      when n (not (is_int (get field row))) (Problem.not_whole field)
      ++ benchmark_problems fields row

  unfoldable pub fixture_problems : Row n → List (Problem n)
  unfolding when differs
  fixture_problems row =
      when n (differs n (get "refused" row) (int (pos 0)))
        (Problem.refused_in_setup (get "refused" row))

  unfoldable pub idle_problems : Row n → List (Problem n)
  unfolding when differs
  idle_problems row =
      when n (not (is_true (get "quiet" row)) || differs n (get "sends_pending" row) (int (pos 0)))
        (Problem.not_idle (get "quiet" row) (get "sends_pending" row))

  unfoldable pub teardown_problems : Row n → List (Problem n)
  unfolding when differs
  teardown_problems row =
      when n (differs n (get "live" row) (int (pos 0))) (Problem.never_freed (get "live" row))
      ++ when n (differs n (get "refused" row) (int (pos 0)))
          (Problem.refused_allocations (get "refused" row))

  -- What an optional row contributes.
  unfoldable pub from_row : {A : Type 0} → Option (Row n) → (Row n → List A) → List A
  from_row none f = []
  from_row (some row) f = f row
