-- ===== src/Benchmarks.antt =====
-- `load` of tools/perf_gate.py and tools/bench_compare.py: the records of one benchmark run.
-- A line enters as what `strip` and `json.loads` make of it.
use telar.Prelude.{
  ◌&&◌, Bool, true, false, not, Option, none, some, List, [], ◌∷◌, any, if◌then◌else◌,
}
use telar.Prelude.Result.{
  Result, ok, err, Exception, key_error, type_error, value_error, attribute_error, raise_if,
  or_raise, ◌>>=◌, ◌>>◌,
}
use telar.Number.{Number}
use telar.Json.{Value, Row, obj, text, find, get, is_hashable, py_eq}
use telar.Placement.Run.{Line, blank, not_json, value}

module _ (n : Number) where
  -- `dict[key] = record`
  unfoldable pub put_case : Value n → Row n → List (Value n × Row n) → List (Value n × Row n)
  put_case key row [] = (key, row) ∷ []
  put_case key row ((k, old) ∷ cases) =
      let later = put_case key row cases in
      if py_eq n k key then (k, row) ∷ cases else (k, old) ∷ later

  unfoldable pub find_case : Value n → List (Value n × Row n) → Option (Row n)
  find_case key [] = none
  find_case key ((k, row) ∷ cases) =
      let later = find_case key cases in if py_eq n k key then some row else later

  pub record Loaded : Type 0 where
    pub metadata : Row n
    pub cases : List (Value n × Row n)

  abbrev Partial : Type 0
  Partial = Option (Row n) × List (Value n × Row n)

  unfoldable pub load_record : Row n → Partial → Result Exception Partial
  unfolding put_case
  load_record row (metadata, cases) =
      if py_eq n (get "type" row) (text "metadata")
      then ok (some row, cases)
      else if py_eq n (get "type" row) (text "benchmark")
      then (do
        name ← or_raise (find "name" row) key_error
        raise_if (not (is_hashable name)) type_error
        ok (metadata, put_case name row cases))
      else ok (metadata, cases)

  unfoldable pub load_lines : List (Line n) → Partial → Result Exception Partial
  unfolding load_record
  load_lines [] p = ok p
  load_lines (blank ∷ lines) p = load_lines lines p
  load_lines (not_json ∷ lines) p = err value_error
  load_lines (value (obj row) ∷ lines) p = do p' ← load_record row p; load_lines lines p'
  load_lines (value v ∷ lines) p = err attribute_error

  abbrev is_empty_list : {A : Type 0} → List A → Bool
  is_empty_list [] = true
  is_empty_list (x ∷ xs) = false

  unfoldable pub load : List (Line n) → Result Exception Loaded
  unfolding load_lines
  load lines = do
    (found, cases) ← load_lines lines (none, [])
    metadata ← or_raise found value_error
    raise_if (is_empty_list cases) value_error
    ok (record { metadata = metadata; cases = cases })

  -- `key not in cases`
  abbrev pub lacks : List (Value n × Row n) → Value n × Row n → Bool
  lacks cases (key, row) = not (any (λ (c : Value n × Row n). py_eq n c.0 key) cases)

  -- The keys of each dictionary are keys of the other.
  unfoldable pub same_keys : List (Value n × Row n) → List (Value n × Row n) → Bool
  same_keys a b = not (any (lacks b) a) && not (any (lacks a) b)
