-- ===== src/Placement/Run/RecordRows.antt =====
-- The record placements of one case, and the counts that its shape needs.
use telar.Json.{
  int, text, get, null, find, Row, Value, is_hashable, or_zero, py_eq, py_mul, count_trues,
}
use telar.Prelude.{ℕ, String, not, Option, none, some, List, [], ◌∷◌, ◌++◌, if◌then◌else◌}
use telar.Prelude.Int.{pos}
use telar.Prelude.Result.{Result, ok, Exception, type_error, raise_if, ◌>>=◌, ◌>>◌}
use telar.Number.{Number}
use telar.Placement.Run.{Problem, Records}
use telar.Placement.Run.Rows.{when, differs}

module _ (n : Number) where
  open n use {Num, of_nat, of_int, sub, div}

  -- `records[key] = record`
  unfoldable pub put_record :
      Value n → Records n → List (Value n × Records n) → List (Value n × Records n)
  put_record key r [] = (key, r) ∷ []
  put_record key r ((k, old) ∷ rest) =
      let later = put_record key r rest in if py_eq n k key then (k, r) ∷ rest else (k, old) ∷ later

  unfoldable pub controlled_count : Option (Value n) → Result Exception ℕ
  controlled_count none = ok 0
  controlled_count (some v) = count_trues n v

  unfoldable pub read_records :
      List (Row n) → List (Value n × Records n) → Result Exception (List (Value n × Records n))
  unfolding put_record controlled_count
  read_records [] records = ok records
  read_records (row ∷ rows) records = do
    controlled ← controlled_count (find "controlled" row)
    raise_if (not (is_hashable (get "record" row))) type_error
    read_records rows (
        put_record (get "record" row)
          (record {
            count = get "count" row;
            controlled = controlled;
            page_offset_bytes = get "page_offset_bytes" row;
            window_offset_bytes = get "window_offset_bytes" row;
          })
          records)

  -- `records.get(kind, {}).get("count")`
  unfoldable pub count_of : String → List (Value n × Records n) → Value n
  count_of kind [] = null
  count_of kind ((key, r) ∷ records) =
      if py_eq n key (text kind) then r.count else count_of kind records

  -- How many records of each kind the shape needs.
  unfoldable pub expected_counts : Row n → Result Exception (List (String × Value n))
  expected_counts row = do
    attachments ← py_mul n (or_zero n (get "clients" row)) (or_zero n (get "panes" row))
    ok (
        ("runtime", int (pos 1))
        ∷ ("session", get "clients" row)
        ∷ ("pane", get "panes" row)
        ∷ ("attachment", attachments)
        ∷ [])

  unfoldable pub count_problems :
      List (Value n × Records n) → List (String × Value n) → List (Problem n)
  unfolding when differs count_of
  count_problems records [] = []
  count_problems records ((kind, needed) ∷ rest) =
      when n (differs n (count_of kind records) needed)
        (Problem.record_count kind (count_of kind records) needed)
      ++ count_problems records rest

  unfoldable pub shape_problems :
      Option (Row n) → List (Value n × Records n) → Result Exception (List (Problem n))
  unfolding expected_counts count_problems
  shape_problems none records = ok []
  shape_problems (some row) records = do
    expected ← expected_counts row
    ok (count_problems records expected)
