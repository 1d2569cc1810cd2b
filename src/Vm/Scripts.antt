-- ===== src/Vm/Scripts.antt =====
-- tools/vm/vm.py: the scripts that are sent to the guest.
use telar.Prelude.{String, [], ◌∷◌}
use telar.Text.Format.{concat}
use telar.Vm.Guest.{guest_src}

-- A script of `sync`.
unfoldable pub sync_script : String
unfolding concat
sync_script = concat (
    "set -euo pipefail\n" ∷ "stage=$(mktemp -d)\n" ∷ "trap 'rm -rf \"$stage\"' EXIT\n"
    ∷ "tar -xf - -C \"$stage\"\n" ∷ "mkdir -p \"$HOME/" ∷ guest_src ∷ "\"\n"
    ∷ "rsync -a --delete --exclude=/.zig-cache/ --exclude=/zig-out/ --exclude=/.zig-out/ --exclude=/zig-pkg/ \\\n"
    ∷ "    \"$stage/\" \"$HOME/" ∷ guest_src ∷ "/\"\n" ∷ [])

-- A script of `gui_smoke`.
unfoldable pub smoke_start : String
unfolding concat
smoke_start = concat (
    "set -euo pipefail\n" ∷ "cd \"$HOME/" ∷ guest_src ∷ "\"\n" ∷ "mkdir -p -m 700 .zig-out/dev\n"
    ∷ "export WAYLAND_DISPLAY=wayland-1 XDG_RUNTIME_DIR=\"/run/user/$(id -u)\"\n"
    ∷ "export TELAR_SOCKET=\"$PWD/.zig-out/dev/runtime.sock\" TELAR_HISTORY=\"$PWD/.zig-out/dev/history.db\"\n"
    ∷ "./zig-out/bin/telar gui --login-shell --no-config > .zig-out/dev/gui-smoke.log 2>&1 &\n"
    ∷ "gui=$!\n" ∷ "sleep 8\n" ∷ "if ! kill -0 \"$gui\" 2> /dev/null; then\n"
    ∷ "    echo \"telar gui exited early:\" >&2\n" ∷ "    cat .zig-out/dev/gui-smoke.log >&2\n"
    ∷ "    exit 1\n" ∷ "fi\n" ∷ "echo \"$gui\" > .zig-out/dev/gui-smoke.pid\n"
    ∷ "# --login-shell execs twice in place, so the window keeps the pid we started.\n"
    ∷ "tr \"\\0\" \"\\n\" < \"/proc/$gui/environ\" | grep -q \"^TELAR_LOGIN_SHELL=1$\" || {\n"
    ∷ "    echo \"telar gui did not come through the login shell\" >&2\n" ∷ "    exit 1\n" ∷ "}\n"
    ∷ [])

-- A script of `gui_smoke`.
unfoldable pub smoke_end : String
unfolding concat
smoke_end = concat (
    "cd \"$HOME/" ∷ guest_src ∷ "\"\n"
    ∷ "kill \"$(cat .zig-out/dev/gui-smoke.pid 2> /dev/null)\" 2> /dev/null || true\n"
    ∷ "# The bracket keeps this shell, whose command line holds the pattern, out of the match.\n"
    ∷ "pkill -f \"[t]elar gui\" 2> /dev/null || true\n"
    ∷ "TELAR_SOCKET=\"$PWD/.zig-out/dev/runtime.sock\" ./zig-out/bin/telar server stop > /dev/null\n"
    ∷ [])

-- A script of `main`.
unfoldable pub run_script : String
unfolding concat
run_script = concat (
    "set -euo pipefail\n" ∷ "cd \"$HOME/" ∷ guest_src ∷ "\"\n"
    ∷ "export PATH=\"$HOME/.local/bin:$PATH\"\n" ∷ "mkdir -p -m 700 .zig-out/dev\n"
    ∷ "export TELAR_SOCKET=\"$PWD/.zig-out/dev/runtime.sock\"\n"
    ∷ "export TELAR_HISTORY=\"$PWD/.zig-out/dev/history.db\"\n"
    ∷ "exec ./zig-out/bin/telar \"$@\"\n" ∷ [])
