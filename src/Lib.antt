-- ===== src/Lib.antt =====
-- A verification library for Python tools of this repository: models of their code, and theorems
-- about the models.
--
-- Parts. tools/placement_bench.py compares placements of the runtime's records in memory. `run`
-- checks its arguments (validate), then starts the benchmark once per variant and round (ordered),
-- reads what each run prints as JSON Lines (parse_run, parse_case), keeps every run with its problems
-- (the loop of command_run) and compares the variants run by run (derive, paired).
-- tools/perf_gate.py compares repeated benchmark runs (load, validate_runs, noisy, aggregate, main),
-- and tools/bench_compare.py compares two.
-- tools/terminal_bench_fixture.py is the workload in a terminal: it writes payloads (payload_chunks,
-- write_all), paced if asked (OutputPacer), and turns a marker at each key.
-- tools/headless_client.py drives a client without a window (HeadlessClient) and reads its trace.
-- tools/perf_e2e.py measures isolated runtimes: it finds what came from one (descendants), asks it to
-- stop (stop_runtime) and kills what is left (cleanup_sessions).
-- tools/linux_slot_summary.py folds the events of a probe into snapshots and frames (read_events),
-- keeps the complete frames (select_frames), adds up for how long a dirty view was busy (gate) and
-- charges the frames that held the slot (eligible_waits).
-- tools/echo_path.py measures single keys: it checks its arguments and orders the measurements (plan),
-- times each key and its erasure (exchange, measure_control) and asks a process that keeps the screen
-- what is visible (feed).
-- tools/echo_trace.py finds the chain of events of each key in the traces of a client and a runtime
-- (fixture_chains), and tools/echo_tail.py correlates the chains with the samples of a run (correlate)
-- and describes them (describe). tools/vm/vm.py keeps a virtual machine: it fetches the image, starts
-- QEMU (launch), waits for the guest (wait_for_ssh), runs commands in it (guest) and stops it (stop).
-- tools/terminal_bench_report.py loads the runs of a comparison (load_runs), pairs the rounds of two
-- applications (paired_statistics) and sums up their throughput (throughput_statistics).
-- tools/check_client_boundaries.py reports the imports that leave the client package (violations), and
-- tools/check_library_reexports.py finds the names that stand for a library (library_aliases).
--
-- Files. Each function has the name that it has in the source.
--   Prelude, Prelude/*  the shared types, list lemmas, integers, and Result for Python's exceptions
--   Text, Number, Json  the methods of str that the tools use, Python's numbers, and what json.loads
--                       returns, with Python's == on it
--   Statistics          sorted, min, max, statistics.median, and percentile of tools/echo_latency.py
--   Placement           the constants, Variant and UsageError of tools/placement_bench.py
--   Placement/ParseVariant, Order, Power, Paired, Validate
--                       parse_variant, ordered, power_of_two, paired and validate
--   Placement/Run       parse_run and parse_case: Rows picks rows, Checks, RecordRows and Figures
--                       read one case, OneCase is parse_case, Output is parse_run
--   Benchmarks          load of tools/perf_gate.py, which tools/bench_compare.py has too
--   PerfGate            the verdict of tools/perf_gate.py
--   TerminalFixture     write_all, payload_chunks, OutputPacer and the marker of
--                       tools/terminal_bench_fixture.py
--   BenchCompare        the exit status of tools/bench_compare.py
--   Cleanup             owned_sessions, session_members and cleanup_sessions of tools/perf_e2e.py, its
--                       descendants (Descendants) and stop_runtime (Stop)
--   Headless/Client     HeadlessClient of tools/headless_client.py
--   Headless            echo_latencies and last_frame_after of tools/headless_client.py
--   SlotSummary         the folding of the events, the frames, the gate, the waits and the native
--                       spans of summarize in tools/linux_slot_summary.py
--   Boundaries          violations of tools/check_client_boundaries.py
--   Reexports           library_aliases of tools/check_library_reexports.py
--   Placement/Session   the loop of command_run over the rounds
--   Placement/Derive    derive
--   Placement/Finish    consistency, the end of command_run and the status of main
--   TerminalReport      load_runs (Runs), paired_statistics (Paired) and throughput_statistics
--                       (Throughput) of tools/terminal_bench_report.py
--   EchoPath            tools/echo_path.py: Oracle.feed (Oracle), consume, exchange and the samples
--                       (Exchange), ordered_specs and the checks and rounds of main (Plan)
--   Echo                load_events and fixture_chains of tools/echo_trace.py
--   Echo/Tail, Report   tools/echo_tail.py: phase, correlate and percentiles; send_spans, describe and
--                       analyze, one run at a time
--   Vm/System           the state that tools/vm/vm.py changes (the files of its state directory, the
--                       clock, what has been done) and the host, whose answers are a parameter
--   Vm/Image, Process, Guest, Monitor, Scripts, Main
--                       the functions of tools/vm/vm.py
--   Tests               sample data and runs of the theorems on it
--
-- Numbers. Python's int is ℤ over the native numbers and has no bound. float is a parameter
-- (Number): the theorems that compare floats take what holds of comparisons other than with NaN
-- (IsOrdered). A quotient of integers too large for a float is the parameter's, too. What Python's Unicode tables say of characters beyond ASCII is a parameter (Unicode).
-- A line of a run's output enters as what strip and json.loads make of it. The loops are structural
-- recursion, except `while grown` in library_aliases: its fuel is one more than the number of aliases,
-- which is enough, since every pass but the last adds one of them; write_all, whose fuel is the number
-- of bytes, of which each turn writes at least one; the ranges over offsets, whose fuel is the number
-- of steps that they take; wait_for_ssh, whose fuel is one more than its timeout in seconds, since an
-- attempt that is repeated takes three of them; the wait of cleanup_sessions, whose fuel is 41, since
-- each turn takes a twentieth of its two seconds; the wait of stop_runtime, whose fuel is 250 for five
-- seconds of fiftieths; descendants, whose fuel is the length of the process table; the loops of
-- consume and exchange of tools/echo_path.py, whose fuel is one more than their nanoseconds, of which
-- each turn is taken to last one at least; the writes and the answer of the oracle, whose fuel is
-- their bytes, of which each call moves at least one; and blocks, whose fuel is the length of the
-- chunk.
--
-- A host command of tools/vm/vm.py is its words, with the return code, the files and the time as the
-- host's answer; time is in milliseconds. The draws of random.Random, math.log, math.exp, SHA-256,
-- math.isclose and math.ceil of a float are parameters.
--
-- Not modelled: the writing of results.json and its reading by replay, building, digests, what is
-- piped into a process, the host description and the printed tables, and the tools other than those
-- named above.
pub mod Prelude
pub mod Text
pub mod Number
pub mod Json
pub mod Statistics
pub mod Placement
pub mod Headless
pub mod SlotSummary
pub mod Reexports
pub mod Boundaries
pub mod Benchmarks
pub mod PerfGate
pub mod BenchCompare
pub mod TerminalFixture
pub mod Tests
pub mod Vm
pub mod Cleanup
pub mod TerminalReport
pub mod Echo
pub mod EchoPath
