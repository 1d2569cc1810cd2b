-- ===== src/Headless/Client.antt =====
-- `HeadlessClient` of tools/headless_client.py: the client's process, its input and its log.
use telar.Text.Format.{concat, decimal}
use telar.Prelude.{
  str_eq, ℕ, String, Bool, true, false, Option, none, some, List, [], ◌∷◌, ◌++◌, if◌then◌else◌,
}
use telar.Prelude.Int.{ℤ}
use telar.Prelude.Result.{Result, ok, err}

pub data Signal : Type 0 where
  sigterm sigkill : Signal

-- What the client was sent, whether its standard input and the log are open, and the signals that
-- its process was sent, the last first.
pub record World : Type 0 where
  pub sent : List String
  pub stdin_open : Bool
  pub log_open : Bool
  pub signals : List Signal

pub data ClientError : Type 0 where
  broken_pipe closed_input timeout_expired : ClientError
  -- the line that came in place of `ready`, if any
  not_ready : Option String → ClientError

-- The process, as the system shows it.
pub record System : Type 0 where
  -- `process.poll()`
  pub poll : World → Option ℤ
  -- `process.wait(timeout=...)`; `none` is `TimeoutExpired`.
  pub wait : ℕ → World → Option ℤ
  -- A write to the process's input raises `BrokenPipeError`.
  pub is_broken : World → Bool
  -- The first line of its output within the time, if there is one.
  pub first_line : ℕ → World → Option String

abbrev pub Outcome : Type 0 → Type 0
Outcome A = World × Result ClientError A

abbrev pub optional_words : String → Option String → List String
optional_words flag none = []
optional_words flag (some path) = flag ∷ path ∷ []

-- The command that `__init__` starts.
unfoldable pub command_words :
    String → ℕ → ℕ → Option String → Option String → List String → List String
unfolding decimal concat
command_words binary cols rows trace dump args =
    (binary ∷ "--size" ∷ concat (decimal cols ∷ "x" ∷ decimal rows ∷ []) ∷ [])
    ++ optional_words "--trace" trace
    ++ optional_words "--dump" dump
    ++ args

module _ (sys : System) where
  open sys use {poll, wait, is_broken, first_line}

  unfoldable pub wait_ready : ℕ → World → Outcome (Unit {0})
  wait_ready timeout w = elim (first_line timeout w) [
    | none ↦ (w, err (not_ready none))
    | some line ↦ elim (str_eq line "ready\n") [
      | true ↦ (w, ok tt)
      | false ↦ (w, err (not_ready (some line)))
    ]
  ]

  -- A closed input refuses the lines, and a broken pipe loses them.
  unfoldable pub write_lines : Bool → Bool → List String → World → Outcome (Unit {0})
  write_lines false broken lines w = (w, err closed_input)
  write_lines true true lines w = (w, err broken_pipe)
  write_lines true false lines w = (record w { sent = w.sent ++ lines }, ok tt)

  -- The lines are written one by one, and flushed together.
  unfoldable pub send : List String → World → Outcome (Unit {0})
  unfolding write_lines
  send lines w = write_lines w.stdin_open (is_broken w) lines w

  unfoldable pub key : String → World → Outcome (Unit {0})
  unfolding send concat
  key name = send (concat ("key " ∷ name ∷ []) ∷ [])

  unfoldable pub text : String → World → Outcome (Unit {0})
  unfolding send concat
  text value = send (concat ("text " ∷ value ∷ []) ∷ [])

  unfoldable pub mark : String → World → Outcome (Unit {0})
  unfolding send concat
  mark label = send (concat ("mark " ∷ label ∷ []) ∷ [])

  unfoldable pub resize : ℕ → ℕ → World → Outcome (Unit {0})
  unfolding send concat decimal
  resize cols rows = send (concat ("resize " ∷ decimal cols ∷ "x" ∷ decimal rows ∷ []) ∷ [])

  unfoldable pub running : World → Bool
  running w = elim (poll w) [ none ↦ true | some status ↦ false ]

  abbrev pub close_log : World → World
  close_log w = record w { log_open = false }

  -- `except BrokenPipeError: pass`
  abbrev pub close_input : Outcome (Unit {0}) → Outcome (Unit {0})
  close_input (w, ok done) = (record w { stdin_open = false }, ok tt)
  close_input (w, err broken_pipe) = (w, ok tt)
  close_input (w, err closed_input) = (w, err closed_input)
  close_input (w, err timeout_expired) = (w, err timeout_expired)
  close_input (w, err (not_ready line)) = (w, err (not_ready line))

  abbrev pub status_of : Option ℤ → Result ClientError ℤ
  status_of none = err timeout_expired
  status_of (some status) = ok status

  -- `try: return self.process.wait(...) finally: self.close_log()`
  unfoldable pub wait_and_close : ℕ → World → Outcome ℤ
  wait_and_close timeout w = (close_log w, status_of (wait timeout w))

  abbrev pub after_ask : ℕ → Outcome (Unit {0}) → Outcome ℤ
  after_ask timeout (w, ok done) = wait_and_close timeout w
  after_ask timeout (w, err e) = (w, err e)

  unfoldable pub quit : ℕ → World → Outcome ℤ
  unfolding running send wait_and_close
  quit timeout w =
      if running w
      then after_ask timeout (close_input (send ("quit" ∷ []) w))
      else wait_and_close timeout w

  abbrev pub signal : Signal → World → World
  signal s w = record w { signals = s ∷ w.signals }

  -- The process that does not end in time is killed; if it cannot be reaped then, the log stays
  -- open.
  unfoldable pub after_term : ℕ → World → Outcome (Unit {0})
  after_term timeout w = elim (wait timeout w) [
    | some status ↦ (close_log w, ok tt)
    | none ↦ elim (wait timeout (signal sigkill w)) [
      | some status ↦ (close_log (signal sigkill w), ok tt)
      | none ↦ (signal sigkill w, err timeout_expired)
    ]
  ]

  unfoldable pub terminate : ℕ → World → Outcome (Unit {0})
  unfolding running after_term
  terminate timeout w =
      if running w then after_term timeout (signal sigterm w) else (close_log w, ok tt)
