-- ===== src/Echo/Tail.antt =====
-- The phases of a chain (tools/echo_trace.py, `summarize`) and their correlation with the samples
-- of a run (tools/echo_tail.py).
use telar.Statistics.{maximum, percentile}
use telar.Number.{Number}
use telar.Echo.{Event}
use telar.Prelude.{
  ℕ, String, Bool, true, false, not, ◌&&◌, Option, none, some, List, [], ◌∷◌, length, str_eq,
  if◌then◌else◌,
}
use telar.Prelude.Int.{pos, leb_ℤ, ltb_ℤ, ◌-ℤ◌, eq_ℤ, ℤ}
use telar.Prelude.Result.{Result, ok, err, Exception, index_error, ◌>>=◌, raise_if}

-- `end['ns'] - start['ns']`
abbrev pub wall_ns : Event → Event → ℤ
wall_ns start stop = stop.ns -ℤ start.ns

-- The consecutive events of a chain: `zip(chain, chain[1:])`.
unfoldable pub steps : List Event → List (Event × Event)
steps [] = []
steps (e ∷ []) = []
steps (e ∷ f ∷ events) = (e, f) ∷ steps (f ∷ events)

unfoldable pub last_event : Event → List Event → Event
last_event e [] = e
last_event e (f ∷ events) = last_event f events

-- What the tail analysis raises, a kind of `ValueError` for each text.
pub data TailError : Type 0 where
  empty_distribution : TailError
  non_monotonic_phase : TailError
  non_monotonic_clock : TailError
  invalid_stimulus : TailError
  latency_mismatch : TailError
  epoch_mismatch : TailError
  chain_count : TailError
  raised : Exception → TailError

abbrev pub as_tail : {A : Type 0} → Result Exception A → Result TailError A
as_tail (ok a) = ok a
as_tail (err e) = err (raised e)

abbrev pub same_optional : Option ℤ → Option ℤ → Bool
same_optional none none = true
same_optional none (some b) = false
same_optional (some a) none = false
same_optional (some a) (some b) = eq_ℤ a b

module _ (n : Number) where
  open n use {Num, of_nat, of_int, add, sub, mul, div, lt}

  -- Nanoseconds, in microseconds.
  abbrev pub micros : ℤ → Num
  micros ns = div (of_int ns) (of_nat 1000)

  pub record Phase : Type 0 where
    pub start_tag : Option String
    pub end_tag : Option String
    pub wall_us : Num
    pub cpu_us : Option (Num × Num)

  -- The CPU time and the rest, where both events are of one thread and carry its clock.
  unfoldable pub cpu_of :
      Event → Event → Option ℤ → Option ℤ → Result TailError (Option (Num × Num))
  cpu_of start stop (some from) (some to) =
      if ltb_ℤ (to -ℤ from) (pos 0)
      then err non_monotonic_clock
      else ok (some (micros (to -ℤ from), sub (micros (wall_ns start stop)) (micros (to -ℤ from))))
  cpu_of start stop (some from) none = ok none
  cpu_of start stop none to = ok none

  abbrev pub has_thread : Event → Bool
  has_thread e = elim e.thread [ none ↦ false | some t ↦ true ]

  abbrev pub same_thread : Event → Event → Bool
  same_thread start stop =
      str_eq start.process stop.process && same_optional start.thread stop.thread

  unfoldable pub cpu_times : Event → Event → Result TailError (Option (Num × Num))
  unfolding cpu_of
  cpu_times start stop =
      if same_thread start stop && has_thread start
      then cpu_of start stop start.cpu_ns stop.cpu_ns
      else ok none

  unfoldable pub phase : Event → Event → Result TailError Phase
  unfolding cpu_times
  phase start stop =
      raise_if (ltb_ℤ (wall_ns start stop) (pos 0)) non_monotonic_phase >>= λ forward.
      cpu_times start stop >>= λ cpu. ok (record {
        start_tag = start.event;
        end_tag = stop.event;
        wall_us = micros (wall_ns start stop);
        cpu_us = cpu;
      })

  unfoldable pub phases : List (Event × Event) → Result TailError (List Phase)
  unfolding phase
  phases [] = ok []
  phases ((start, stop) ∷ pairs) =
      phase start stop >>= λ first. phases pairs >>= λ rest. ok (first ∷ rest)

  pub record Percentiles : Type 0 where
    pub p50_us : Num
    pub p95_us : Num
    pub p99_us : Num
    pub count : ℕ
    pub max_us : Option Num
    pub tail_gap_us : Num

  -- A percentile; the fractions are the literals `.5`, `.95` and `.99`.
  unfoldable pub at_fraction : List Num → ℕ → Result TailError Num
  at_fraction values hundredths =
      as_tail (percentile n values (div (of_nat hundredths) (of_nat 100)))

  unfoldable pub percentiles : List Num → Result TailError Percentiles
  unfolding at_fraction
  percentiles [] = err empty_distribution
  percentiles (v ∷ values) = at_fraction (v ∷ values) 50 >>= λ p50.
      at_fraction (v ∷ values) 95 >>= λ p95. at_fraction (v ∷ values) 99 >>= λ p99. ok (record {
        p50_us = p50;
        p95_us = p95;
        p99_us = p99;
        count = length (v ∷ values);
        max_us = maximum n (v ∷ values);
        tail_gap_us = sub p99 p50;
      })

  pub record Sample : Type 0 where
    pub started_ns : ℤ
    pub sent_ns : ℤ
    pub arrived_ns : ℤ
    pub us : Num

  pub record Correlated : Type 0 where
    pub total_us : Num
    pub submit_us : Num
    pub input_boundary_us : Num
    pub output_boundary_us : Num
    pub phases_of : List Phase

  -- The part that reads the chain: it must begin within the sample.
  unfoldable pub correlate_chain : Sample → List Event → Result TailError Correlated
  unfolding phases last_event steps
  correlate_chain sample [] = err (raised index_error)
  correlate_chain sample (e ∷ chain) =
      raise_if (not (leb_ℤ sample.started_ns e.ns && leb_ℤ e.ns sample.arrived_ns)) epoch_mismatch
      >>= λ inside. phases (steps (e ∷ chain)) >>= λ found. ok (record {
        total_us = sample.us;
        submit_us = micros (sample.sent_ns -ℤ sample.started_ns);
        input_boundary_us = micros (e.ns -ℤ sample.started_ns);
        output_boundary_us = micros (sample.arrived_ns -ℤ (last_event e chain).ns);
        phases_of = found;
      })

  -- `math.isclose(a, b, abs_tol=.001)` is a parameter.
  module _ (is_close : Num → Num → Bool) where
    unfoldable pub correlate : Sample → List Event → Result TailError Correlated
    unfolding correlate_chain
    correlate sample chain =
        raise_if
          (not (leb_ℤ sample.started_ns sample.sent_ns && leb_ℤ sample.sent_ns sample.arrived_ns))
          invalid_stimulus
        >>= λ stimulus.
            raise_if (not (is_close sample.us (micros (sample.arrived_ns -ℤ sample.started_ns))))
              latency_mismatch
            >>= λ close. correlate_chain sample chain
