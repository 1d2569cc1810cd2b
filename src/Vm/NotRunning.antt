-- ===== src/Vm/NotRunning.antt =====
-- The commands for the guest, where no machine runs.
use telar.Vm.Guest.{guest, require_running}
use telar.Text.Format.{concat}
use telar.Vm.Process.{running_pid}
use telar.Vm.Main.{at_source, finish, main, gui_smoke, sync, Tree}
use telar.Vm.System.{runtime_error, Failure, World, System}
use telar.Vm.Image.{Settings}
use telar.Prelude.{
  str_eq, not, select, true, false, ap, ◌≡◌, refl, none, String, List, [], ◌∷◌, Bool,
}
use telar.Prelude.Result.{ok, err}

-- The commands that ask something of the guest.
pub data IsForGuest : String → Type 0 where
  for_sync : IsForGuest "sync"
  for_build : IsForGuest "build"
  for_run : IsForGuest "run"
  for_stop_runtime : IsForGuest "stop-runtime"
  for_shell : IsForGuest "shell"
  for_exec : IsForGuest "exec"
  for_gui_smoke : IsForGuest "gui-smoke"

abbrev refusal : Settings → Failure
refusal cfg =
    runtime_error (concat (cfg.name ∷ " is not running; start it with tools/vm/vm.py start" ∷ []))

module _ (cfg : Settings) (sys : System) (tree : Tree) (w w' : World)
    (gone : running_pid cfg sys w ≡ (w', ok none)) where
  require-refused : require_running cfg sys w ≡ (w', err (refusal cfg))
  unfolding require_running concat
  require-refused = rw (gone, require_running) refl

  guest-refused :
      (script : String) (args : List String) (tty : Bool)
      → guest cfg sys script args tty w ≡ (w', err (refusal cfg))
  unfolding guest
  guest-refused script args tty = rw (require-refused, guest) refl

  sync-refused : sync cfg sys tree w ≡ (w', err (refusal cfg))
  unfolding sync
  sync-refused = rw (require-refused, sync) refl

  gui_smoke-refused : (target : String) → gui_smoke cfg sys tree target w ≡ (w', err (refusal cfg))
  unfolding gui_smoke
  gui_smoke-refused target = rw (sync-refused, gui_smoke) refl

  -- Where no process of a machine is found, a command for the guest runs no program on the host,
  -- syncs nothing and changes no file: looking for the process is all that it does, and the exit
  -- status is 1.
  pub main-not_running :
      (word : String) (args : List String)
      → IsForGuest word
      → main cfg sys tree (word ∷ args) w ≡ (w', 1)
  unfolding main
  main-not_running _ args for_sync = rw (sync-refused, main) refl
  main-not_running _ args for_build = rw (sync-refused, main) refl
  main-not_running _ args for_run = rw (sync-refused, main) refl
  main-not_running _ args for_stop_runtime = ap (finish cfg sys tree) (
      guest-refused
        (at_source cfg sys tree
          "TELAR_SOCKET=\"$PWD/.zig-out/dev/runtime.sock\" exec ./zig-out/bin/telar server stop")
        [] false)
  main-not_running _ args for_shell =
      ap (finish cfg sys tree) (guest-refused (at_source cfg sys tree "exec bash -l") [] true)
  main-not_running _ args for_exec = ap (finish cfg sys tree) (
      guest-refused
        (concat
          ("export PATH=\"$HOME/.local/bin:$PATH\"; " ∷ at_source cfg sys tree "exec \"$@\"" ∷ []))
        (select (λ arg. not (str_eq arg "--display")) args) false)
  main-not_running _ args for_gui_smoke = ap (finish cfg sys tree) (gui_smoke-refused _)
