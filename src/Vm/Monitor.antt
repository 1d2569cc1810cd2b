-- ===== src/Vm/Monitor.antt =====
-- tools/vm/vm.py: QEMU's monitor, and the end of the machine.
use telar.Prelude.Int.{ℤ}
use telar.Vm.Process.{running_pid}
use telar.Vm.Image.{Settings}
use telar.Vm.System.{
  wrong_type, no_desc, broken, silent, blocked, key_error, type_error, object, unreadable,
  value_error, out_of_fuel, sleep, return, os_error, print, kill, called_process_error, asked,
  object, ◌>>=◌, runtime_error, record_effect, World, Action, Failure, System, Reply,
}
use telar.Prelude.{ℕ, zero, suc, String, none, some, List, [], ◌∷◌}
use telar.Prelude.Result.{Result, ok, err}

-- The reply to a message is the first line with a `"return"`; an `"error"` is raised, and other
-- lines, the events, are passed over. Behind it the lines that are left.
unfoldable pub await_reply : List Reply → Result Failure (String × List Reply)
await_reply [] = err value_error
await_reply (unreadable ∷ lines) = err value_error
await_reply (wrong_type ∷ lines) = err type_error
await_reply (no_desc ∷ lines) = err key_error
await_reply (broken ∷ lines) = err os_error
await_reply (silent ∷ lines) = err blocked
await_reply (object (some value) error ∷ lines) = ok (value, lines)
await_reply (object none (some desc) ∷ lines) = err (runtime_error desc)
await_reply (object none none ∷ lines) = await_reply lines

-- The two messages of a command, each with its reply.
unfoldable pub converse : List Reply → Result Failure String
unfolding await_reply
converse lines = elim (await_reply lines) [
  | err e ↦ err e
  | ok negotiated ↦ elim (await_reply negotiated.1) [ err e ↦ err e | ok reply ↦ ok reply.0 ]
]

module _ (cfg : Settings) (sys : System) where
  unfoldable pub qmp : String → List String → Action String
  unfolding converse
  qmp command arguments w =
      let w' = record_effect (asked command arguments) w in
      elim (sys.monitor w) [ none ↦ (w', err os_error) | some lines ↦ (w', converse lines) ]

  -- `except (OSError, RuntimeError): pass`
  abbrev pub pass_over : World × Result Failure String → World × Result Failure (Unit {0})
  pass_over (w, ok reply) = (w, ok tt)
  pass_over (w, err os_error) = (w, ok tt)
  pass_over (w, err (runtime_error text)) = (w, ok tt)
  pass_over (w, err (called_process_error code)) = (w, err (called_process_error code))
  pass_over (w, err value_error) = (w, err value_error)
  pass_over (w, err type_error) = (w, err type_error)
  pass_over (w, err key_error) = (w, err key_error)
  pass_over (w, err blocked) = (w, err blocked)
  pass_over (w, err out_of_fuel) = (w, err out_of_fuel)

  -- The process is looked for once a second; one that is still there in the end is sent SIGTERM.
  unfoldable pub poll_stopped : ℕ → ℤ → Action (Unit {0})
  unfolding running_pid
  poll_stopped zero pid = kill sys pid 15
  poll_stopped (suc left) pid = do
    seen ← running_pid cfg sys
    elim seen [ none ↦ return tt | some p ↦ do waited ← sleep sys 1; poll_stopped left pid ]

  unfoldable pub stop : Action (Unit {0})
  unfolding running_pid qmp poll_stopped
  stop = do
    pid ← running_pid cfg sys
    elim pid [
      | none ↦ print "not running"
      | some p ↦ do asked_down ← λ w. pass_over (qmp "system_powerdown" [] w); poll_stopped 60 p
    ]

  unfoldable pub screenshot : String → Action (Unit {0})
  unfolding qmp
  screenshot target = do reply ← qmp "screendump" (target ∷ "png" ∷ []); print target
