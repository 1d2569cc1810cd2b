-- ===== src/Placement/Run/Rows.antt =====
-- Picking rows out of the output of a run.
use telar.Json.{text, get, py_eq, Value, Row}
use telar.Prelude.{
  String, Bool, true, false, not, ◌&&◌, Option, none, some, List, [], ◌∷◌, map, select, length,
}
use telar.Number.{Number}
use telar.Placement.Run.{Problem}

module _ (n : Number) where
  open n use {Num, of_nat, of_int, sub, div}

  -- `row.get("type") == kind`
  unfoldable pub is_kind : String → Row n → Bool
  is_kind kind row = py_eq n (get "type" row) (text kind)

  unfoldable pub of_kind : String → List (Row n) → List (Row n)
  unfolding is_kind
  of_kind kind rows = select (is_kind kind) rows

  -- The rows of a kind that belong to one case.
  unfoldable pub of_case_kind : String → Value n → List (Row n) → List (Row n)
  unfolding is_kind
  of_case_kind kind name rows =
      select (λ row. is_kind kind row && py_eq n (get "name" row) name) rows

  unfoldable pub pick : List String → Row n → List (String × Value n)
  pick fields row = map (λ field. (field, get field row)) fields

  -- `one(kind)`: the only row, or none and a problem.
  unfoldable pub single : List (Row n) → Option (Row n)
  single (row ∷ []) = some row
  single _ = none

  unfoldable pub one : String → Value n → List (Row n) → Option (Row n) × List (Problem n)
  unfolding of_case_kind single
  one kind name rows =
      let found = of_case_kind kind name rows in
      elim (single found) [
        | none ↦ (none, Problem.expected_one kind (length found) ∷ [])
        | some row ↦ (some row, [])
      ]

  unfoldable pub when : Bool → Problem n → List (Problem n)
  when true p = p ∷ []
  when false p = []

  -- `value != expected`
  unfoldable pub differs : Value n → Value n → Bool
  differs a b = not (py_eq n a b)
