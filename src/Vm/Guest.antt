-- ===== src/Vm/Guest.antt =====
-- tools/vm/vm.py: what the host asks of the guest over SSH.
use telar.Text.{is_empty}
use telar.Placement.Paired.{lookup, Dict}
use telar.Vm.Process.{running_pid}
use telar.Text.Format.{contains, after_last, join, decimal, concat, strip_text, quote}
use telar.Vm.System.{
  run, sleep, check_run, runtime_error, out_of_fuel, read_text, return, exists, throw, ◌>>=◌,
  Action, System,
}
use telar.Vm.Image.{user, state_path, Settings}
use telar.Prelude.{
  ltb, ◌==◌, if◌then◌else◌, ℕ, zero, suc, ◌+◌, ◌*◌, String, Bool, true, false, Option, none, some,
  List, [], ◌∷◌, ◌++◌, map,
}

abbrev pub guest_src : String
guest_src = "src/telar"

-- `SeedHandler.do_GET`: the body for a path, by what follows its last slash; `none` is the 404.
unfoldable pub do_get : Dict String → String → Option String
unfolding contains after_last
do_get files path = lookup (if contains b'/' path then after_last b'/' path else path) files

module _ (cfg : Settings) where
  open cfg use {name, ssh_port, cpus, unicode}

  -- The words behind ssh's own options: the user, and what the remote shell is to read. ssh joins
  -- its words with spaces, so each is quoted.
  unfoldable pub ssh_words : List String → Bool → List String
  unfolding join quote concat decimal state_path
  ssh_words args tty =
      let remote = join " " (map quote args) in
      ("ssh"
        ∷ "-p"
        ∷ decimal ssh_port
        ∷ "-i"
        ∷ state_path cfg "id_ed25519"
        ∷ "-o"
        ∷ "IdentitiesOnly=yes"
        ∷ "-o"
        ∷ concat ("UserKnownHostsFile=" ∷ state_path cfg "known_hosts" ∷ [])
        ∷ "-o"
        ∷ "StrictHostKeyChecking=accept-new"
        ∷ "-o"
        ∷ "ConnectTimeout=5"
        ∷ "-o"
        ∷ "ServerAliveInterval=15"
        ∷ "-o"
        ∷ "LogLevel=ERROR"
        ∷ [])
      ++ (if tty then "-t" ∷ [] else [])
      ++ (concat (user ∷ "@127.0.0.1" ∷ []) ∷ [])
      ++ (if is_empty remote then [] else remote ∷ [])

  abbrev pub keygen_words : List String
  keygen_words =
      "ssh-keygen"
      ∷ "-q"
      ∷ "-t"
      ∷ "ed25519"
      ∷ "-N"
      ∷ ""
      ∷ "-C"
      ∷ name
      ∷ "-f"
      ∷ state_path cfg "id_ed25519"
      ∷ []

  module _ (sys : System) where
    unfoldable pub ssh_key : Action String
    unfolding state_path
    ssh_key w =
        if exists "id_ed25519" w
        then return "id_ed25519" w
        else (do made ← check_run sys keygen_words; return "id_ed25519") w

    unfoldable pub ssh_command : List String → Bool → Action (List String)
    unfolding ssh_key ssh_words
    ssh_command args tty = do key ← ssh_key; return (ssh_words args tty)

    unfoldable pub cloud_config : Action String
    unfolding ssh_key strip_text concat
    cloud_config = do
      key ← ssh_key
      public_key ← read_text "id_ed25519.pub"
      return (
          concat (
            "#cloud-config\nhostname: "
            ∷ name
            ∷ "\nusers:\n  - name: "
            ∷ user
            ∷ "\n    groups: [wheel, video, input, render]\n    sudo: ALL=(ALL) NOPASSWD:ALL\n    shell: /bin/bash\n    ssh_authorized_keys:\n      - "
            ∷ strip_text unicode public_key
            ∷ "\nssh_pwauth: false\ngrowpart:\n  mode: auto\n  devices: ['/']\n"
            ∷ []))

    -- `SeedHandler.files`
    unfoldable pub seed_files : Action (Dict String)
    unfolding cloud_config concat
    seed_files = do
      config ← cloud_config
      return (
          ("meta-data", concat ("instance-id: " ∷ name ∷ "\nlocal-hostname: " ∷ name ∷ "\n" ∷ []))
          ∷ ("user-data", config)
          ∷ ("vendor-data", "")
          ∷ [])

    -- One attempt: a login that succeeds ends the wait, a QEMU that is gone fails it, and else the
    -- next attempt comes after three seconds.
    unfoldable pub attempt : Action (Option (Unit {0}))
    unfolding ssh_command running_pid concat state_path
    attempt = do
      words ← ssh_command ("true" ∷ []) false
      code ← run sys words
      if code == 0 then return (some tt) else (do
        pid ← running_pid cfg sys
        elim pid [
          | none ↦ throw (
              runtime_error
                (concat ("QEMU stopped while booting; see " ∷ state_path cfg "serial.log" ∷ [])))
          | some p ↦ do waited ← sleep sys 3; return none
        ])

    unfoldable pub wait_loop : ℕ → ℕ → Action (Unit {0})
    wait_loop zero deadline w = throw out_of_fuel w
    wait_loop (suc fuel) deadline w = elim (ltb w.now deadline) [
      | false ↦ throw (runtime_error "the machine did not accept SSH in time") w
      | true ↦
          (attempt >>= λ done. elim done [ some d ↦ return tt | none ↦ wait_loop fuel deadline ]) w
    ]

    -- Each failed attempt takes three seconds at least, so the deadline comes within a third of
    -- the timeout's seconds.
    unfoldable pub wait_for_ssh : ℕ → Action (Unit {0})
    unfolding wait_loop
    wait_for_ssh timeout w = wait_loop (suc timeout) (w.now + timeout * 1000) w

    unfoldable pub require_running : Action (Unit {0})
    unfolding running_pid concat
    require_running = do
      pid ← running_pid cfg sys
      elim pid [
        | none ↦ throw (
            runtime_error
              (concat (name ∷ " is not running; start it with tools/vm/vm.py start" ∷ [])))
        | some p ↦ return tt
      ]

    unfoldable pub guest : String → List String → Bool → Action (Unit {0})
    unfolding require_running ssh_command
    guest script args tty = do
      running ← require_running
      words ← ssh_command ("bash" ∷ "-c" ∷ script ∷ "telar-vm" ∷ args) tty
      check_run sys words

    unfoldable pub build : List String → Action (Unit {0})
    unfolding guest concat
    build args =
        guest
          (concat (
            "export PATH=\"$HOME/.local/bin:$PATH\"; cd \"$HOME/" ∷ guest_src
            ∷ "\" && exec zig build -j" ∷ cpus ∷ " \"$@\"" ∷ []))
          args false
