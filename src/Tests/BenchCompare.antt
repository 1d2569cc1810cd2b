-- ===== src/Tests/BenchCompare.antt =====
-- The two runs of tools/perf_gate.py's sample, with a limit on the medians only.
use telar.Prelude.{some, none}
use telar.Prelude.Int.{pos}
use telar.BenchCompare.{Limits}
use telar.Tests.Sample.{whole, ascii}

abbrev limits : Limits ascii whole
limits = record { fail_above = some (pos 20); fail_payload_above = none }
