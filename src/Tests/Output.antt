-- ===== src/Tests/Output.antt =====
-- The output of a run that counts.
use telar.Placement.Run.Whole.{parse_run-Counts, Counts}
use telar.Placement.Run.Counts.{parse_case-IsCounted, IsCounted}
use telar.Placement.Run.Output.{parse_run}
use telar.Placement.Run.OneCase.{parse_case}
use telar.Prelude.{map, true, ℕ, none, some, [], ◌∷◌, refl, List, String}
use telar.Prelude.Int.{ℤ, pos}
use telar.Prelude.Result.{err, Exception, Result, ok}
use telar.Json.{Json, Items, Fields, null, bool, int, text, arr, obj, Row, Value}
use telar.Placement.Run.{Line, Problem, Case, Parsed, value, blank}
use telar.Tests.Sample.{whole}
use telar.Tests.Placement.{settings, near}

abbrev pub row_of : List (String × Value whole) → Row whole
row_of [] = Fields.end
row_of ((key, v) ∷ rest) = Fields.field key v (row_of rest)

abbrev name : Value whole
name = text "backend.delivery.flush_idle"

abbrev typed : String → List (String × Value whole) → Row whole
typed kind rest = row_of (("type", text kind) ∷ ("name", name) ∷ rest)

abbrev pub num : ℕ → Value whole
num k = int (pos k)

abbrev counted : String → ℕ → Row whole
counted kind k = typed "placement_records" (("record", text kind) ∷ ("count", num k) ∷ [])

abbrev case_rows : List (Row whole)
case_rows =
    typed "benchmark" (
      ("iterations", num 10)
      ∷ ("samples", num 12)
      ∷ ("median_ns_per_op", num 500)
      ∷ ("min_ns_per_op", num 480)
      ∷ ("p95_ns_per_op", num 510)
      ∷ ("p99_ns_per_op", num 520)
      ∷ [])
    ∷ typed "placement_fixture" (("clients", num 2) ∷ ("panes", num 3) ∷ ("refused", num 0) ∷ [])
    ∷ typed "placement_idle" (("quiet", bool true) ∷ ("sends_pending", num 0) ∷ [])
    ∷ typed "placement_teardown" (("live", num 0) ∷ ("refused", num 0) ∷ [])
    ∷ counted "runtime" 1
    ∷ counted "session" 2
    ∷ counted "pane" 3
    ∷ counted "attachment" 6
    ∷ typed "placement_allocations"
        (("count", num 1) ∷ ("len_bytes", arr (Items.cons (num 4096) Items.nil)) ∷ [])
    ∷ typed "intervening_walk" (
        ("walk_bytes", num 1000)
        ∷ ("flushes", num 5)
        ∷ ("flush_ns", num 900)
        ∷ ("empty_clock_ns", num 100)
        ∷ [])
    ∷ []

abbrev first_of : Result Exception (Case whole × List (Problem whole)) → Case whole → Case whole
first_of (ok (case, problems)) d = case
first_of (err e) d = d

abbrev empty_case : Case whole
empty_case = record {
  benchmark = [];
  shape = none;
  placement = [];
  records = [];
  allocations = none;
  walk = none;
}

abbrev case : Case whole
case = first_of (parse_case whole case_rows name (some (pos 1000))) empty_case

parse_case-IsCounted_example : IsCounted whole case_rows name case
unfolding parse_case telar.Json.py_eq telar.Json.py_mul telar.Json.py_sum telar.Json.as_number
    telar.Prelude.Int.◌*ℤ◌
parse_case-IsCounted_example = parse_case-IsCounted whole case_rows name (some (pos 1000)) case refl

abbrev pub stdout : List (Line whole)
stdout =
    value (obj (row_of (("type", text "metadata") ∷ ("zig", text "0.15") ∷ [])))
    ∷ blank
    ∷ value (
        obj (
          row_of (
            ("type", text "placement_policy")
            ∷ ("mode", text "baseline")
            ∷ ("backing", text "libc")
            ∷ ("threshold_bytes", num 32768)
            ∷ ("stride_bytes", num 512)
            ∷ ("window_bytes", num 16384)
            ∷ [])))
    ∷ value (obj (row_of (("type", text "placement_layout") ∷ ("record", text "pane") ∷ [])))
    ∷ map (λ row. value (obj row)) case_rows

abbrev empty_parsed : Parsed whole
empty_parsed = record {
  metadata = none;
  policy = none;
  layout = [];
  shape_selected = [];
  cases = [];
}

abbrev parsed_of : Result Exception (Parsed whole × List (Problem whole)) → Parsed whole
parsed_of (ok (p, problems)) = p
parsed_of (err e) = empty_parsed

abbrev parsed : Parsed whole
parsed = parsed_of (parse_run whole stdout near settings)

parse_run-Counts_example : Counts whole stdout near settings parsed
unfolding parse_run telar.Json.py_eq telar.Json.py_mul telar.Json.py_sum telar.Json.as_number
    telar.Prelude.Int.◌*ℤ◌
parse_run-Counts_example = parse_run-Counts whole stdout near settings parsed refl
