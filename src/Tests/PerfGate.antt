-- ===== src/Tests/PerfGate.antt =====
-- One run against another, of one case that got slower by half.
use telar.Prelude.{List, [], ◌∷◌, none, some, String, Option, false, ℕ}
use telar.Prelude.Int.{ℤ, pos}
use telar.Json.{text, obj}
use telar.Placement.Run.{Line, value}
use telar.PerfGate.{Args}
use telar.Tests.Sample.{whole}
use telar.Tests.Output.{row_of, num}

abbrev pub no_float : String → Option ℤ
no_float s = none

abbrev pub run : ℕ → Option (List (Line whole))
run ns = some (
    value (obj (row_of (("type", text "metadata") ∷ ("zig", text "0.15") ∷ [])))
    ∷ value (
        obj (
          row_of (
            ("type", text "benchmark")
            ∷ ("name", text "paint")
            ∷ ("median_ns_per_op", num ns)
            ∷ ("p95_ns_per_op", num 40)
            ∷ ("p99_ns_per_op", num 50)
            ∷ [])))
    ∷ [])

abbrev thresholds : Args whole no_float
thresholds = record {
  p50_percent = pos 5;
  p95_percent = pos 8;
  p99_percent = pos 10;
  payload_byte_delta = pos 0;
  allow_noisy = false;
}
