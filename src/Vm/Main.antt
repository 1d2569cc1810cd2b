-- ===== src/Vm/Main.antt =====
-- tools/vm/vm.py: `sync`, `up`, `gui_smoke` and the commands.
use telar.Vm.Scripts.{smoke_end, run_script, smoke_start, sync_script}
use telar.Text.Format.{concat}
use telar.Vm.Monitor.{stop, screenshot}
use telar.Text.{is_empty}
use telar.Vm.Process.{shown, is_pid, running_pid, launch}
use telar.Vm.Guest.{guest_src, wait_for_ssh, ssh_command, build, guest, seed_files, require_running}
use telar.Vm.Image.{state_path, Settings}
use telar.Vm.System.{
  Failure, print, pipe, runtime_error, throw, shut_seed, serving, exists, record_effect, check_run,
  return, ◌>>=◌, Action, System, World,
}
use Prim.Native.String.{compare}
use Prim.Native.Nat.{Ordering}
use telar.Prelude.{
  str_eq, any, ◌==◌, if◌then◌else◌, not, ℕ, String, Bool, true, false, Option, none, some, List, [],
  ◌∷◌, ◌&&◌, select,
}
use telar.Prelude.Result.{Result, ok, err}

-- What `git ls-files -z` lists, whether a path of the tree is a file or a link, the firmware's
-- templates, and the port that the seed's server gets.
pub record Tree : Type 0 where
  pub listed : World → List String
  pub is_member : String → Bool
  pub firmware_text : String → String
  pub seed_port : ℕ

-- `sorted(set(names))`
insert_name : String → List String → List String
insert_name a [] = a ∷ []
insert_name a (b ∷ names) = elim (compare a b) [
  | Ordering.lt ↦ a ∷ b ∷ names
  | Ordering.eq ↦ b ∷ names
  | Ordering.gt ↦ b ∷ insert_name a names
]

unfoldable pub sorted_set : List String → List String
unfolding insert_name
sorted_set [] = []
sorted_set (a ∷ names) = insert_name a (sorted_set names)

module _ (cfg : Settings) (sys : System) (tree : Tree) where
  open cfg use {name, state}
  open tree use {listed, is_member, firmware_text}

  -- The members of the archive: the names listed, without the empty one, that are files or links.
  unfoldable pub members : List String → List String
  unfolding sorted_set
  members names = select (λ raw. not (is_empty raw) && is_member raw) (sorted_set names)

  unfoldable pub sync : Action (Unit {0})
  unfolding require_running ssh_command members
  sync = do
    running ← require_running cfg sys
    listed_ok ←
        check_run sys
          ("git" ∷ "ls-files" ∷ "-z" ∷ "--cached" ∷ "--others" ∷ "--exclude-standard" ∷ [])
    words ← ssh_command cfg sys ("bash" ∷ "-c" ∷ sync_script ∷ []) false
    code ← λ w. pipe sys words (members (listed w)) w
    if code == 0 then return tt else throw (runtime_error "Working tree sync failed")

  serve_seed : Action ℕ
  unfolding seed_files
  serve_seed = do files ← seed_files cfg sys; λ w. (record_effect serving w, ok tree.seed_port)

  finish_seed : Bool → Action (Unit {0})
  unfolding guest
  finish_seed false = return tt
  finish_seed true = do
    waited ← guest cfg sys "cloud-init status --wait > /dev/null || true" [] false
    λ w. (record_effect shut_seed w, ok tt)

  unfoldable pub up : Bool → Action (Unit {0})
  unfolding serve_seed finish_seed launch wait_for_ssh guest sync build
  up display = do
    first_boot ← λ w. (w, ok (not (exists "disk.qcow2" w)))
    port ← if first_boot then (do port ← serve_seed; return (some port)) else return none
    launched ← launch cfg sys firmware_text display port
    answered ← wait_for_ssh cfg sys 600
    finished ← finish_seed first_boot
    provisioned ← guest cfg sys "bash -s" [] false
    synced ← sync
    build cfg sys []

  -- `try: screenshot(path) finally: guest(...)`: what the last call raises is raised, and else what
  -- the screenshot raised.
  unfoldable pub gui_smoke : String → Action (Unit {0})
  unfolding sync build guest screenshot
  gui_smoke target = do
    synced ← sync
    built ← build cfg sys []
    started ← guest cfg sys smoke_start [] false
    λ w.
        let (w', taken) = screenshot cfg sys target w in
        let (w'', closed) = guest cfg sys smoke_end [] false w' in
        elim closed [ err e ↦ (w'', err e) | ok done ↦ (w'', taken) ]

  usage : Action (Unit {0})
  usage = do
    first ← print "Usage: tools/vm/vm.py COMMAND [--display] [ARGS]"
    second ←
        print
          "Commands: up, start, stop, status, shell, exec, sync, build, run, stop-runtime, screenshot, gui-smoke"
    print "build/run sync first. Sync replaces guest source changes; edit on the host."

  status : Action (Unit {0})
  unfolding running_pid concat shown
  status = do
    pid ← running_pid cfg sys
    print (
        concat (
          name
          ∷ ": "
          ∷ (if is_pid pid then concat ("running, pid " ∷ shown pid ∷ []) else "stopped")
          ∷ "; state in "
          ∷ state
          ∷ []))

  start : Bool → Action (Unit {0})
  unfolding launch wait_for_ssh
  start display = do launched ← launch cfg sys firmware_text display none; wait_for_ssh cfg sys 600

  unfoldable pub at_source : String → String
  unfolding concat
  at_source rest = concat ("cd \"$HOME/" ∷ guest_src ∷ "\" && " ∷ rest ∷ [])

  first_or : String → List String → String
  first_or d [] = d
  first_or d (a ∷ args) = a

  -- `args or ["--help"]`
  or_help : List String → List String
  or_help [] = "--help" ∷ []
  or_help (a ∷ args) = a ∷ args

  -- What runs for each command; `none` for a word that is none.
  unfoldable pub command_of : String → Bool → List String → Option (Action (Unit {0}))
  unfolding up start stop status sync build guest screenshot gui_smoke at_source concat first_or
      or_help state_path
  command_of word display args =
      if str_eq word "up"
      then some (up display)
      else if str_eq word "start"
      then some (start display)
      else if str_eq word "stop"
      then some (stop cfg sys)
      else if str_eq word "status"
      then some status
      else if str_eq word "sync"
      then some sync
      else if str_eq word "build"
      then some (sync >>= λ synced. build cfg sys args)
      else if str_eq word "run"
      then some (
          sync >>= λ synced.
          build cfg sys [] >>= λ built. guest cfg sys run_script (or_help args) true)
      else if str_eq word "stop-runtime"
      then some (
          guest cfg sys
            (at_source
              "TELAR_SOCKET=\"$PWD/.zig-out/dev/runtime.sock\" exec ./zig-out/bin/telar server stop")
            [] false)
      else if str_eq word "shell"
      then some (guest cfg sys (at_source "exec bash -l") [] true)
      else if str_eq word "exec"
      then some (
          guest cfg sys
            (concat ("export PATH=\"$HOME/.local/bin:$PATH\"; " ∷ at_source "exec \"$@\"" ∷ []))
            args false)
      else if str_eq word "screenshot"
      then some (screenshot cfg sys (first_or (state_path cfg "screenshot.png") args))
      else if str_eq word "gui-smoke"
      then some (gui_smoke (first_or (state_path cfg "gui-smoke.png") args))
      else none

  -- The status that the interpreter exits with: the handler's 1 for the two kinds it names, and 1
  -- for an exception that it passes on.
  abbrev pub exit_code : Result Failure (Unit {0}) → ℕ
  exit_code (ok done) = 0
  exit_code (err e) = 1

  abbrev pub finish : World × Result Failure (Unit {0}) → World × ℕ
  finish (w, result) = (w, exit_code result)

  main_with : String → List String → World → World × ℕ
  unfolding command_of usage
  main_with word words w =
      let display = any (λ arg. str_eq arg "--display") words in
      let args = select (λ arg. not (str_eq arg "--display")) words in
      elim (command_of word display args) [
        | some action ↦ finish (action w)
        | none ↦ elim (str_eq word "help") [
          | true ↦ finish (usage w)
          | false ↦ let (w', shown_usage) = usage w in (w', 2)
        ]
      ]

  -- `sys.argv[1:]`
  unfoldable pub main : List String → World → World × ℕ
  unfolding main_with
  main [] w = main_with "help" [] w
  main (word ∷ words) w = main_with word words w
