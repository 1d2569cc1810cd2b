-- ===== src/Placement/Run/Output.antt =====
-- `parse_run`
use telar.Json.{Row, Value, Fields, int, text, obj, get, is_hashable, py_eq}
use telar.Prelude.{
  ℕ, ◌+◌, String, not, Option, none, some, List, [], ◌∷◌, ◌++◌, map, any, count_if, length, str_eq,
  ◌==◌, if◌then◌else◌,
}
use telar.Prelude.Int.{ℤ}
use telar.Prelude.Result.{Result, ok, Exception, type_error, raise_if, ◌>>=◌, ◌>>◌}
use telar.Number.{Number}
use telar.Placement.{Variant}
use telar.Placement.Validate.{Settings}
use telar.Placement.Run.{blank, not_json, value, Line, Problem, Case, Parsed, metadata_fields}
use telar.Placement.Run.Rows.{of_kind, pick, single, when, differs}
use telar.Placement.Run.OneCase.{parse_case}

module _ (n : Number) where
  open n use {Num, of_nat, of_int, sub, div}

  -- The rows of the output, and a problem for each line that holds none.
  unfoldable pub read_lines : ℕ → List (Line n) → List (Row n) × List (Problem n)
  read_lines number [] = ([], [])
  read_lines number (blank ∷ lines) = read_lines (number + 1) lines
  read_lines number (not_json ∷ lines) =
      let (rows, problems) = read_lines (number + 1) lines in
      (rows, Problem.line_not_json number ∷ problems)
  read_lines number (value (obj row) ∷ lines) =
      let (rows, problems) = read_lines (number + 1) lines in (row ∷ rows, problems)
  read_lines number (value v ∷ lines) =
      let (rows, problems) = read_lines (number + 1) lines in
      (rows, Problem.line_not_object number ∷ problems)

  -- `{key: value for key, value in row.items() if key not in keys}`
  unfoldable pub drop_keys : List String → Row n → Row n
  drop_keys keys Fields.end = Fields.end
  drop_keys keys (Fields.field k v row) =
      let rest = drop_keys keys row in if any (str_eq k) keys then rest else Fields.field k v rest

  unfoldable pub read_metadata : List (Row n) → Option (List (String × Value n)) × List (Problem n)
  unfolding single pick
  read_metadata rows = elim (single n rows) [
    | some row ↦ (some (pick n metadata_fields row), [])
    | none ↦ (none, Problem.expected_one "metadata" (length rows) ∷ [])
  ]

  -- What the policy must say, for the variant and the settings of the run.
  unfoldable pub expected_policy : Variant → Settings n → List (String × Value n)
  expected_policy variant settings =
      ("mode", text variant.mode)
      ∷ ("backing", text settings.backing)
      ∷ ("threshold_bytes", int variant.threshold)
      ∷ ("stride_bytes", int settings.stride)
      ∷ elim settings.window [ none ↦ [] | some window ↦ ("window_bytes", int window) ∷ [] ]

  unfoldable pub policy_problems : Row n → List (String × Value n) → List (Problem n)
  unfolding when differs
  policy_problems policy [] = []
  policy_problems policy ((key, expected) ∷ rest) =
      when n (differs n (get key policy) expected) (Problem.policy_differs key (get key policy))
      ++ policy_problems policy rest

  unfoldable pub read_policy :
      List (Row n) → Variant → Settings n → Option (Row n) × List (Problem n)
  unfolding single drop_keys expected_policy policy_problems
  read_policy rows variant settings = elim (single n rows) [
    | some row ↦
        let policy = drop_keys ("type" ∷ []) row in
        (some policy, policy_problems policy (expected_policy variant settings))
    | none ↦ (none, Problem.expected_one "placement_policy" (length rows) ∷ [])
  ]

  unfoldable pub layout_problems : List (Row n) → List (Problem n)
  layout_problems [] = Problem.no_layout ∷ []
  layout_problems (row ∷ rows) = []

  -- `{row.get("record"): row.get("shape_selected") for row in layout}`
  unfoldable pub put_value : Value n → Value n → List (Value n × Value n) → List (Value n × Value n)
  put_value key v [] = (key, v) ∷ []
  put_value key v ((k, old) ∷ rest) =
      let later = put_value key v rest in if py_eq n k key then (k, v) ∷ rest else (k, old) ∷ later

  unfoldable pub read_selected :
      List (Row n) → List (Value n × Value n) → Result Exception (List (Value n × Value n))
  unfolding put_value
  read_selected [] selected = ok selected
  read_selected (row ∷ rows) selected = do
    raise_if (not (is_hashable (get "record" row))) type_error
    read_selected rows (put_value (get "record" row) (get "shape_selected" row) selected)

  -- Names that the output reports other than once, each time that they come up.
  unfoldable pub repeat_problems : List (Value n) → List (Value n) → List (Problem n)
  unfolding when
  repeat_problems names [] = []
  repeat_problems names (name ∷ rest) =
      let times = count_if (λ other. py_eq n other name) names in
      when n (not (times == 1)) (Problem.reported_times name times) ++ repeat_problems names rest

  -- `dict.fromkeys(names)`: the names in the order in which they first come up.
  unfoldable pub from_keys : List (Value n) → List (Value n) → Result Exception (List (Value n))
  from_keys seen [] = ok seen
  from_keys seen (name ∷ rest) = do
    raise_if (not (is_hashable name)) type_error
    from_keys (if any (λ other. py_eq n other name) seen then seen else seen ++ name ∷ []) rest

  unfoldable pub read_cases :
      List (Row n)
      → Option ℤ
      → List (Value n)
      → Result Exception (List (Value n × Case n) × List (Problem n))
  unfolding parse_case
  read_cases rows walk [] = ok ([], [])
  read_cases rows walk (name ∷ names) = do
    (case, problems) ← parse_case n rows name walk
    (cases, others) ← read_cases rows walk names
    ok ((name, case) ∷ cases, map (Problem.of_case name) problems ++ others)

  unfoldable pub name_problems : List (Value n) → List (Problem n)
  name_problems [] = Problem.no_benchmark ∷ []
  name_problems (name ∷ names) = []

  unfoldable pub parse_run :
      List (Line n) → Variant → Settings n → Result Exception (Parsed n × List (Problem n))
  unfolding read_lines of_kind read_metadata read_policy layout_problems read_selected
      repeat_problems from_keys read_cases name_problems drop_keys
  parse_run stdout variant settings = do
    let (rows, of_lines) = read_lines 1 stdout
    let (metadata, of_metadata) = read_metadata (of_kind n "metadata" rows)
    let (policy, of_policy) = read_policy (of_kind n "placement_policy" rows) variant settings
    let layout = of_kind n "placement_layout" rows
    selected ← read_selected layout []
    let names = map (get "name") (of_kind n "benchmark" rows)
    distinct ← from_keys [] names
    (cases, of_cases) ← read_cases rows settings.intervening_walk distinct
    ok (
      record {
        metadata = metadata;
        policy = policy;
        layout = map (drop_keys ("type" ∷ "shape_selected" ∷ [])) layout;
        shape_selected = selected;
        cases = cases;
      },
      of_lines
          ++ of_metadata
          ++ of_policy
          ++ layout_problems layout
          ++ repeat_problems names names
          ++ of_cases
          ++ name_problems names,
    )
