-- ===== src/EchoPath.antt =====
-- tools/echo_path.py: the latency of a single key through controlled terminals. Bytes are numbers,
-- and times are nanoseconds of `time.perf_counter_ns()`.
pub mod Oracle
pub mod Plan
pub mod Rounds
pub mod Samples
pub mod Visible
pub mod Exchange
pub mod Framed
use telar.Prelude.{ℕ}

-- What the oracle raises. `out_of_fuel` stands for a loop of the model that was not given enough
-- steps.
pub data PathError : Type 0 where
  eof_error timeout_error runtime_error struct_error os_error out_of_fuel : PathError
