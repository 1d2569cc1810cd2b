-- ===== src/Tests/Echo.antt =====
-- A trace of the warm-up and of two measured keys, and the theorems on it.
use telar.Echo.Report.{analyze_run, Analysis, Description, Run}
use telar.Echo.Phases.{correlate-IsAccounted, IsAccounted, fixture_chains-phases}
use telar.Echo.Chains.{fixture_chains-IsChain, IsChain}
use telar.Echo.{Event, TraceRow, chain_of, load_events, fixture_chains}
use telar.Echo.Tail.{Percentiles, correlate, Correlated, non_monotonic_phase, steps, phases, Sample}
use telar.Prelude.{
  Bool, ℕ, zero, suc, ◌+◌, ◌*◌, ◌≡◌, ◌≢◌, refl, true, false, none, some, String, List, [], ◌∷◌,
  ◌++◌, map, length, ◌<◌, All,
}
use telar.Prelude.Result.{get_ok, ok, err}
use telar.Prelude.Int.{eq_ℤ, ℤ, pos}
use telar.Tests.Sample.{whole}

abbrev row_at : ℕ → String → TraceRow
row_at ns tag = record {
  dropped = none;
  ns = some (pos ns);
  event = some tag;
  thread = some (pos 1);
  cpu_ns = none;
}

abbrev required_tags : List String
required_tags =
    "host_read" ∷ "client_input" ∷ "client_send_start" ∷ "runtime_read" ∷ "runtime_dispatch"
    ∷ "pty_write_start" ∷ "pty_read" ∷ "output_dispatch" ∷ "vt_start" ∷ "vt_done"
    ∷ "ingest_dispatch" ∷ "runtime_send_start" ∷ "client_read" ∷ "client_frame" ∷ "compose_start"
    ∷ "host_flush_start" ∷ "host_flush_done" ∷ []

abbrev key_rows : ℕ → List String → List TraceRow
key_rows ns [] = []
key_rows ns (tag ∷ tags) = row_at ns tag ∷ key_rows (ns + 1000) tags

abbrev keys_from : ℕ → ℕ → List TraceRow
keys_from zero ns = row_at ns "host_read" ∷ []
keys_from (suc keys) ns = key_rows ns required_tags ++ keys_from keys (ns + 20000)

abbrev closing : TraceRow
closing = record { dropped = some (pos 0); ns = none; event = none; thread = none; cpu_ns = none }

abbrev traces : List (String × List TraceRow)
traces =
    ("client.echo.jsonl", keys_from 42 0 ++ closing ∷ [])
    ∷ ("runtime.echo.jsonl", closing ∷ [])
    ∷ []

abbrev sample : Sample whole
sample = record {
  started_ns = pos 799000;
  sent_ns = pos 799500;
  arrived_ns = pos 817000;
  us = pos 18;
}

abbrev close_enough : ℤ → ℤ → Bool
close_enough a b = eq_ℤ a b

abbrev found : List (List Event)
found = get_ok [] (fixture_chains traces false)

found_ok : fixture_chains traces false ≡ ok found
unfolding fixture_chains
found_ok = refl

fixture_chains-IsChain_example :
    (events : List Event) × (load_events traces ≡ ok events)
    × (0 < length found)
    × All (IsChain (chain_of events) events) found
fixture_chains-IsChain_example = fixture_chains-IsChain traces false found found_ok

fixture_chains-phases_example :
    All (λ chain. phases whole (steps chain) ≢ err non_monotonic_phase) found
fixture_chains-phases_example = fixture_chains-phases whole close_enough traces false found found_ok

abbrev event_at : ℕ → String → Event
event_at ns tag = record {
  event = some tag;
  ns = pos ns;
  thread = none;
  cpu_ns = none;
  process = "client.echo.jsonl";
}

abbrev read_event : Event
read_event = event_at 800000 "host_read"

abbrev done_event : Event
done_event = event_at 816000 "host_flush_done"

abbrev nothing : Correlated whole
nothing = record {
  total_us = pos 0;
  submit_us = pos 0;
  input_boundary_us = pos 0;
  output_boundary_us = pos 0;
  phases_of = [];
}

abbrev correlated : Correlated whole
correlated = get_ok nothing (correlate whole close_enough sample (read_event ∷ done_event ∷ []))

correlated_ok : correlate whole close_enough sample (read_event ∷ done_event ∷ []) ≡ ok correlated
unfolding correlate telar.Prelude.Int.◌-ℤ◌
correlated_ok = refl

correlate-IsAccounted_example :
    IsAccounted whole close_enough sample read_event (done_event ∷ []) correlated
correlate-IsAccounted_example =
    correlate-IsAccounted whole close_enough sample read_event (done_event ∷ []) correlated
      correlated_ok

abbrev measured : Run whole
measured = record { samples = sample ∷ []; traces = traces }

no_percentiles : Percentiles whole
no_percentiles = record {
  p50_us = pos 0;
  p95_us = pos 0;
  p99_us = pos 0;
  count = 0;
  max_us = none;
  tail_gap_us = pos 0;
}

abbrev no_description : Description whole
no_description = record {
  latency = no_percentiles;
  submit = no_percentiles;
  input_boundary = no_percentiles;
  output_boundary = no_percentiles;
  items = [];
}

abbrev analysed : Analysis whole
analysed =
    get_ok (record { whole = no_description; slowest = no_description; slow_samples = [] })
      (analyze_run whole close_enough (λ count. 1) measured)

analysed_ok : analyze_run whole close_enough (λ count. 1) measured ≡ ok analysed
unfolding analyze_run telar.Prelude.Int.◌-ℤ◌ telar.Statistics.percentile telar.Prelude.Int.◌*ℤ◌
analysed_ok = refl
