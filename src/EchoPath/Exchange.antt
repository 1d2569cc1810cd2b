-- ===== src/EchoPath/Exchange.antt =====
-- `consume`, `exchange` and the samples of `measure` in tools/echo_path.py. What the terminal answers
-- is an endless sequence of turns: what each `select` in turn finds, and what is read then.
use telar.EchoPath.{PathError}
use telar.EchoPath.Oracle.{Probe, Oracle, feed}
use telar.Prelude.{
  ℕ, zero, suc, ◌+◌, Bool, true, false, ◌&&◌, Option, none, some, List, [], ◌∷◌, ◌++◌, length, ltb,
  leb, ◌==◌, if◌then◌else◌,
}
use telar.Prelude.Result.{Result, ok, err}

-- A `select` that finds nothing, one whose read raises, and one whose read gives bytes, with the time
-- that the oracle's answer takes. Each turn takes one nanosecond more than is written, so that it
-- takes some time.
pub data Turn : Type 0 where
  silent : ℕ → Turn
  broken : ℕ → Turn
  arrived : ℕ → List ℕ → ℕ → Turn

pub record Host : Type 0 where
  pub probe : Probe
  -- How long a write to the terminal takes; `none` where it raises.
  pub typing : ℕ → Option ℕ
  pub turn : ℕ → Turn

-- The turns so far are counted.
pub record World : Type 0 where
  pub now : ℕ
  pub step : ℕ
  pub typed : List (List ℕ)
  pub oracle : Oracle

-- What is raised: the `OSError` of the terminal, its end, the `TimeoutError` of `exchange`, and what
-- the oracle raises. `no_fuel` stands for a loop of the model that was not given enough steps.
pub data ExchangeError : Type 0 where
  pty_error pty_closed not_visible no_fuel : ExchangeError
  oracle_error : PathError → ExchangeError

abbrev pub Outcome : Type 0 → Type 0
Outcome A = World × Result ExchangeError A

-- What `exchange` returns; `us` is the time from `started_ns` to `arrived_ns`.
pub record Sample : Type 0 where
  pub wire_bytes : ℕ
  pub reads : ℕ
  pub started_ns : ℕ
  pub sent_ns : ℕ
  pub arrived_ns : ℕ

-- `oracle.count == expected and not oracle.synchronized`
abbrev pub is_visible : ℕ → Oracle → Bool
is_visible expected oracle = (oracle.count == expected) && (oracle.synchronized == 0)

-- Behind a turn that leaves the oracle alone.
abbrev pub passed : ℕ → World → World
passed waited w = record w { now = w.now + suc waited; step = suc w.step }

module _ (host : Host) where
  open host use {probe, typing, turn}

  -- Behind a turn whose bytes the oracle was fed.
  abbrev pub after_feed : ℕ → List ℕ → ℕ → World → World
  after_feed waited bytes worked w = record w {
    now = w.now + suc waited + worked;
    step = suc w.step;
    oracle = (feed probe bytes w.oracle).0;
  }

  -- One turn of `consume`, and then the rest of the loop.
  unfoldable pub consume_turn : (World → Outcome (Unit {0})) → Turn → World → Outcome (Unit {0})
  unfolding feed
  consume_turn again (silent waited) w = again (passed waited w)
  consume_turn again (broken waited) w = (passed waited w, err pty_error)
  consume_turn again (arrived waited bytes worked) w = elim (feed probe bytes w.oracle).1 [
    | ok done ↦ again (after_feed waited bytes worked w)
    | err e ↦ (after_feed waited bytes worked w, err (oracle_error e))
  ]

  unfoldable pub consume_until : ℕ → ℕ → World → Outcome (Unit {0})
  unfolding consume_turn
  consume_until deadline zero w = (w, if ltb w.now deadline then err no_fuel else ok tt)
  consume_until deadline (suc fuel) w = elim (ltb w.now deadline) [
    | true ↦ consume_turn (consume_until deadline fuel) (turn w.step) w
    | false ↦ (w, ok tt)
  ]

  -- Each turn takes a nanosecond at least.
  unfoldable pub consume : ℕ → World → Outcome (Unit {0})
  unfolding consume_until
  consume duration w = consume_until (w.now + duration) (suc duration) w

  module _ (started sent expected : ℕ) where
    -- One turn of `exchange`, with the bytes and the reads so far, and then the rest of the loop.
    unfoldable pub echo_turn :
        (ℕ → ℕ → World → Outcome Sample) → ℕ → ℕ → Turn → World → Outcome Sample
    unfolding feed
    echo_turn again wire reads (silent waited) w = again wire reads (passed waited w)
    echo_turn again wire reads (broken waited) w = (passed waited w, err pty_error)
    echo_turn again wire reads (arrived waited [] worked) w = (passed waited w, err pty_closed)
    echo_turn again wire reads (arrived waited (b ∷ bytes) worked) w =
        let seen = after_feed waited (b ∷ bytes) worked w in
        elim (feed probe (b ∷ bytes) w.oracle).1 [
          | err e ↦ (seen, err (oracle_error e))
          | ok done ↦ elim (is_visible expected seen.oracle) [
            | false ↦ again (wire + length (b ∷ bytes)) (suc reads) seen
            | true ↦ (
              seen,
              ok (record {
                wire_bytes = wire + length (b ∷ bytes);
                reads = suc reads;
                started_ns = started;
                sent_ns = sent;
                arrived_ns = w.now + suc waited;
              }),
            )
          ]
        ]

    -- The loop of `exchange`.
    unfoldable pub await_echo : ℕ → ℕ → ℕ → ℕ → World → Outcome Sample
    unfolding echo_turn
    await_echo deadline zero wire reads w =
        (w, err (if ltb w.now deadline then no_fuel else not_visible))
    await_echo deadline (suc fuel) wire reads w = elim (ltb w.now deadline) [
      | true ↦ echo_turn (await_echo deadline fuel) wire reads (turn w.step) w
      | false ↦ (w, err not_visible)
    ]

  -- Two seconds.
  abbrev pub patience : ℕ
  patience = 2000000000

  unfoldable pub exchange : List ℕ → ℕ → World → Outcome Sample
  unfolding await_echo
  exchange stimulus expected w = elim (typing w.now) [
    | none ↦ (w, err pty_error)
    | some spent ↦
        await_echo w.now (w.now + spent) expected (w.now + spent + patience) (suc patience) 0 0
          (record w { now = w.now + spent; typed = w.typed ++ stimulus ∷ [] })
  ]

  abbrev pub warmup_samples : ℕ
  warmup_samples = 20

  abbrev pub tilde : List ℕ
  tilde = 126 ∷ []

  abbrev pub erase : List ℕ
  erase = 127 ∷ []

  infixl 5 ◌>>=◌
  abbrev pub ◌>>=◌ : {A B : Type 0} → Outcome A → (A → World → Outcome B) → Outcome B
  (w, err e) >>= rest = (w, err e)
  (w, ok a) >>= rest = rest a w

  -- One turn of the loop over the samples: a key, its erasure, and the gap.
  unfoldable pub take_sample : ℕ → ℕ → World → Outcome Sample
  unfolding exchange consume
  take_sample gap initial w = exchange tilde (initial + 1) w >>= λ sample erased.
      exchange erase initial erased >>= λ gone quiet.
      consume gap quiet >>= λ done last. (last, ok sample)

  abbrev pub keep : ℕ → Sample → List Sample → List Sample
  keep index sample samples = if leb warmup_samples index then sample ∷ samples else samples

  -- `for index in range(...)`, with `left` turns to go.
  unfoldable pub samples_from : ℕ → ℕ → ℕ → ℕ → World → Outcome (List Sample)
  unfolding take_sample
  samples_from gap initial zero index w = (w, ok [])
  samples_from gap initial (suc left) index w = take_sample gap initial w >>= λ sample after.
      samples_from gap initial left (suc index) after >>= λ samples last.
      (last, ok (keep index sample samples))

  -- The samples of a control, once its processes are started: two seconds of output come first.
  unfoldable pub measure_control : ℕ → ℕ → World → Outcome (List Sample)
  unfolding samples_from
  measure_control gap samples w = consume patience w >>= λ done settled.
      samples_from gap settled.oracle.count (samples + warmup_samples) 0 settled
