-- ===== src/Tests/TerminalReport.antt =====
-- Two rounds of two applications, and the theorems on them.
use telar.TerminalReport.Pairs.{paired_statistics-IsPairing, IsPairing}
use telar.TerminalReport.Paired.{paired_statistics, Pairing, Maths}
use telar.TerminalReport.Distinct.{rows_of, load_runs-AreDistinct, AreDistinct, IsMeasured}
use telar.Json.{obj, Items, Value, end, nil, cons, arr, int, text, field, Row}
use telar.TerminalReport.Runs.{load_runs, Measured}
use telar.TerminalReport.Tables.{throughput_statistics-AreTables, IsTable, table_total}
use telar.TerminalReport.Rates.{sample_count}
use telar.TerminalReport.Throughput.{Throughput, throughput_statistics}
use telar.Prelude.{
  map, str_eq, select, Bool, ℕ, ◌≡◌, ◌<◌, refl, true, false, none, some, String, List, [], ◌∷◌,
  length, All,
}
use telar.Prelude.Result.{get_ok, ok}
use telar.Prelude.Int.{ℤ, pos}
use telar.Tests.Sample.{whole}

abbrev finite : ℤ → Bool
finite a = true

abbrev run_row : String → ℕ → ℕ → Row whole
run_row mode round first = field "case" (text "idle") (
    field "mode" (text mode) (
      field "round" (int (pos round)) (
        field "warmup" (int (pos 1)) (
          field "gpu_ms"
            (arr (cons (int (pos 99)) (cons (int (pos first)) (cons (int (pos 4)) nil)))) end))))

abbrev rows : List (String × Row whole)
rows =
    ("a.json", run_row "ghostty" 0 8)
    ∷ ("a.json", run_row "gui" 0 10)
    ∷ ("b.json", run_row "ghostty" 1 6)
    ∷ ("b.json", run_row "gui" 1 12)
    ∷ ("b.json", run_row "gui" 2 12)
    ∷ []

abbrev loaded : List (Measured whole finite)
loaded = get_ok [] (load_runs whole finite rows)

loaded_ok : load_runs whole finite rows ≡ ok loaded
unfolding load_runs telar.TerminalReport.Runs.run_key telar.Statistics.median
    telar.Statistics.percentile telar.Prelude.Int.◌*ℤ◌ telar.Statistics.maximum
loaded_ok = refl

load_runs-AreDistinct_example :
    All (IsMeasured whole finite) loaded
    × AreDistinct whole finite loaded
    × (rows_of whole finite loaded ≡ rows)
    × (0 < length loaded)
load_runs-AreDistinct_example = load_runs-AreDistinct whole finite rows loaded loaded_ok

abbrev of_mode : String → List (Measured whole finite)
of_mode mode = select (λ m. str_eq m.identity.mode mode) loaded

abbrev flat : Maths whole
flat = record {
  log = λ a. a;
  exp = λ a. a;
  mean = λ values. pos 3;
  draws = λ count. (0 ∷ 0 ∷ []) ∷ (1 ∷ 0 ∷ []) ∷ [];
}

abbrev no_pairing : Pairing whole finite
no_pairing = record {
  rounds = [];
  unpaired_reference = [];
  unpaired_candidate = [];
  p50 = none;
  p95 = none;
}

abbrev pairing : Pairing whole finite
pairing =
    get_ok no_pairing (paired_statistics whole finite flat (of_mode "ghostty") (of_mode "gui"))

pairing_ok : paired_statistics whole finite flat (of_mode "ghostty") (of_mode "gui") ≡ ok pairing
unfolding paired_statistics load_runs telar.TerminalReport.Runs.run_key telar.Statistics.median
    telar.Statistics.percentile telar.Prelude.Int.◌*ℤ◌ telar.Statistics.maximum
    telar.Prelude.Int.◌-ℤ◌ telar.Prelude.Int.◌+ℤ◌ telar.Statistics.minimum
pairing_ok = refl

pairing_rounds : pairing.unpaired_candidate ≡ pos 2 ∷ []
unfolding paired_statistics load_runs telar.TerminalReport.Runs.run_key telar.Statistics.median
    telar.Statistics.percentile telar.Prelude.Int.◌*ℤ◌ telar.Statistics.maximum
    telar.Prelude.Int.◌-ℤ◌ telar.Prelude.Int.◌+ℤ◌ telar.Statistics.minimum
pairing_rounds = refl

paired_statistics-IsPairing_example :
    IsPairing whole finite flat (of_mode "ghostty") (of_mode "gui") pairing
paired_statistics-IsPairing_example =
    paired_statistics-IsPairing whole finite flat (of_mode "ghostty") (of_mode "gui") pairing
      pairing_ok

-- Two rounds of a workload that the report finds under one name, and one of another.
abbrev case_row : String → ℕ → Value whole
case_row name rate = obj (
    field "name" (text name) (
      field "mib_per_second" (int (pos rate))
        (field "bytes" (int (pos 64)) (field "elapsed_ms" (int (pos 2)) end))))

abbrev with_cases : ℕ → Items ℤ → Measured whole finite
with_cases round cases = record {
  identity = record { case = "idle"; mode = "gui"; round = pos round };
  raw =
      field "throughput"
        (obj (field "endpoint" (text "pty_write_to_dsr_response") (field "cases" (arr cases) end)))
        end;
  source = "a.json";
  values = [];
  summary = record { count = 1; p50_ms = pos 1; p95_ms = pos 1; p99_ms = pos 1; max_ms = pos 1 };
}

abbrev throughput_runs : List (Measured whole finite)
throughput_runs =
    with_cases 0 (cons (case_row "sgr" 30) (cons (case_row "ascii" 8) nil))
    ∷ with_cases 1 (cons (case_row "ascii" 6) nil)
    ∷ []

abbrev tables : List (String × Throughput whole finite)
tables = get_ok [] (throughput_statistics whole finite throughput_runs)

tables_ok : throughput_statistics whole finite throughput_runs ≡ ok tables
unfolding throughput_statistics telar.Statistics.median telar.Statistics.maximum
    telar.Statistics.minimum telar.Prelude.Int.◌+ℤ◌ telar.TerminalReport.Runs.as_text
    telar.TerminalReport.Runs.finite_number
tables_ok = refl

-- Sorted by name.
names_test : map (λ t. t.0) tables ≡ "ascii" ∷ "sgr" ∷ []
unfolding throughput_statistics telar.Statistics.median telar.Statistics.maximum
    telar.Statistics.minimum telar.Prelude.Int.◌+ℤ◌ telar.TerminalReport.Runs.as_text
    telar.TerminalReport.Runs.finite_number
names_test = refl

throughput_statistics-AreTables_example :
    All (λ t. IsTable whole finite t.1) tables
    × (table_total whole finite tables ≡ sample_count whole finite throughput_runs)
throughput_statistics-AreTables_example =
    throughput_statistics-AreTables whole finite throughput_runs tables tables_ok
