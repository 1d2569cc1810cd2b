-- ===== src/Tests/Vm.antt =====
-- The virtual machine's theorems at concrete hosts.
use telar.Vm.NotRunning.{for_exec, main-not_running}
use telar.Vm.Monitor.{stop}
use telar.Vm.Process.{running_pid}
use telar.Vm.Trusted.{fetch_base_image-IsFetched, IsFetched}
use telar.Vm.Stopping.{stop-StopEnd, StopEnd}
use telar.Vm.Waiting.{pauses, wait_for_ssh-IsWaited, IsWaited}
use telar.Vm.Guest.{wait_for_ssh}
use telar.Vm.Main.{Tree}
use telar.Vm.System.{object, World, System}
use telar.Vm.Image.{fetch_base_image, Settings}
use telar.Vm.Main.{main}
use telar.Prelude.{
  ◌+◌, ◌≤◌, ◌*◌, ℕ, if◌then◌else◌, ltb, ◌≡◌, refl, true, false, none, some, [], ◌∷◌,
}
use telar.Prelude.Result.{ok}
use telar.Tests.Sample.{ascii}

abbrev laptop : Settings
laptop = record {
  name = "telar-vm";
  state = "/home/u/.cache/telar-vm/telar-vm";
  disk_size = "40G";
  memory = "8G";
  cpus = "4";
  ssh_port = 2223;
  machine = "x86_64";
  system = "linux";
  has_kvm = true;
  which = λ binary. some "/usr/bin/qemu-system-x86_64";
  is_dir = λ path. true;
  share_of = λ binary. "/usr/share/qemu";
  sha256 = λ text. text;
  unicode = ascii;
}

-- The guest answers ten seconds after the start; the process with the pid 7 is there, and stays.
abbrev booting : System
booting = record {
  delivered = λ w pid signal. true;
  completed =
      λ w words. record { code = if ltb w.now 10000 then 255 else 0; files = w.files; took = 500 };
  pid_of = λ w words. 7;
  exited = λ w. false;
  overslept = λ w. 0;
  monitor = λ w. some (object none none ∷ object (some "{}") none ∷ object (some "{}") none ∷ []);
}

abbrev started : World
started = record { files = ("id_ed25519", "key") ∷ ("qemu.pid", "7") ∷ []; now = 0; effects = [] }

abbrev off : World
off = record { files = ("id_ed25519", "key") ∷ []; now = 0; effects = [] }

-- A download writes the file that its last word but one names.
abbrev mirrored : System
mirrored = record {
  delivered = λ w pid signal. false;
  completed = λ w words. record {
    code = 0;
    files =
        ("CHECKSUM", "SHA256 (Fedora-Cloud-Base-Generic-43-1.6.x86_64.qcow2) = abc")
        ∷ ("Fedora-Cloud-Base-Generic-43-1.6.x86_64.partial", "abc")
        ∷ [];
    took = 1;
  };
  pid_of = λ w words. 7;
  exited = λ w. false;
  overslept = λ w. 0;
  monitor = λ w. none;
}

abbrev checkout : Tree
checkout = record {
  listed = λ w. "b" ∷ "a" ∷ "b" ∷ "" ∷ [];
  is_member = λ path. true;
  firmware_text = λ path. path;
  seed_port = 8000;
}

waits : (wait_for_ssh laptop booting 600 started).1 ≡ ok tt
unfolding wait_for_ssh telar.Vm.Guest.attempt telar.Vm.System.exists telar.Vm.System.kill
waits = refl

fetches :
    (fetch_base_image laptop mirrored off).1 ≡ ok "Fedora-Cloud-Base-Generic-43-1.6.x86_64.qcow2"
unfolding fetch_base_image telar.Vm.System.check_run telar.Vm.System.read_text
    telar.Vm.Image.partial_name
fetches = refl

unknown : (main laptop booting checkout ("boot" ∷ []) started).1 ≡ 2
unfolding main
unknown = refl

wait_for_ssh-IsWaited_example :
    (turns : ℕ) × (turns * 3 ≤ 602)
    × IsWaited laptop booting
        (pauses started + turns)
        600000
        (wait_for_ssh laptop booting 600 started)
wait_for_ssh-IsWaited_example = wait_for_ssh-IsWaited laptop booting 600 started

stop-StopEnd_example : StopEnd laptop booting started (stop laptop booting started)
stop-StopEnd_example = stop-StopEnd laptop booting started

fetch_base_image-IsFetched_example :
    IsFetched laptop mirrored off (fetch_base_image laptop mirrored off)
fetch_base_image-IsFetched_example = fetch_base_image-IsFetched laptop mirrored off

none_found : running_pid laptop booting off ≡ (off, ok none)
unfolding running_pid
none_found = refl

main-not_running_example : main laptop booting checkout ("exec" ∷ "ls" ∷ []) off ≡ (off, 1)
main-not_running_example =
    main-not_running laptop booting checkout off off none_found "exec" ("ls" ∷ []) for_exec
