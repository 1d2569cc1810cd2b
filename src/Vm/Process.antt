-- ===== src/Vm/Process.antt =====
-- tools/vm/vm.py: QEMU's command line and its process.
use telar.Placement.Paired.{lookup}
use telar.Text.{codes, parse_int}
use telar.Prelude.Int.{eq_ℤ, negsuc, pos, ℤ}
use telar.Vm.System.{
  runtime_error, throw, sleep, write_text, print, spawn, return, put, kill, ◌>>=◌, exists, System,
  Action,
}
use telar.Text.Format.{decimal, concat}
use telar.Vm.Image.{
  qemu_binary, create_disk, fetch_base_image, state_path, guest_arch, firmware_dir, accelerator,
  Settings,
}
use telar.Prelude.{
  ◌+◌, not, str_eq, ℕ, if◌then◌else◌, String, Bool, true, false, Option, none, some, List, [], ◌∷◌,
  ◌++◌,
}
use telar.Prelude.Result.{ok, err}

-- `str(pid)`
unfoldable pub shown : Option ℤ → String
unfolding decimal concat
shown none = "None"
shown (some (pos n)) = decimal n
shown (some (negsuc n)) = concat ("-" ∷ decimal (n + 1) ∷ [])

-- `if pid:`, which takes the pid 0 for none
abbrev pub is_pid : Option ℤ → Bool
is_pid none = false
is_pid (some pid) = not (eq_ℤ pid (pos 0))

module _ (cfg : Settings) where
  open cfg use {name, memory, cpus, ssh_port, system, state, unicode}

  unfoldable pub machine_args : List String
  unfolding accelerator guest_arch concat
  machine_args =
      let cpu = if str_eq (accelerator cfg) "tcg" then "max" else "host" in
      if str_eq (guest_arch cfg) "aarch64"
      then "-machine" ∷ concat ("virt,accel=" ∷ accelerator cfg ∷ []) ∷ "-cpu" ∷ cpu ∷ []
      else "-machine" ∷ concat ("q35,accel=" ∷ accelerator cfg ∷ []) ∷ "-cpu" ∷ cpu ∷ []

  unfoldable pub display_args : Bool → List String
  unfolding concat
  display_args display =
      let backend = if str_eq system "darwin" then "cocoa" else "gtk" in
      if display
      then "-display" ∷ concat (backend ∷ ",show-cursor=on,zoom-to-fit=on" ∷ []) ∷ []
      else "-display" ∷ "none" ∷ []

  -- `shutil.copyfile(template, variables)`, of the firmware's own template
  abbrev copy_template : String → (String → String) → Action (Unit {0})
  copy_template template content w = (
    if exists "efi-vars.fd" w
        then w
        else record w { files = put "efi-vars.fd" (content template) w.files },
    ok tt,
  )

  unfoldable pub firmware_args : (String → String) → Action (List String)
  unfolding firmware_dir guest_arch concat state_path
  firmware_args content = do
    firmware ← firmware_dir cfg
    let arm = str_eq (guest_arch cfg) "aarch64" in
        let code =
          concat
            (firmware ∷ (if arm then "/edk2-aarch64-code.fd" else "/edk2-x86_64-code.fd") ∷ []) in
        let template =
          concat (firmware ∷ (if arm then "/edk2-arm-vars.fd" else "/edk2-i386-vars.fd") ∷ []) in
        (do
          copied ← copy_template template content
          return (
              "-drive"
              ∷ concat ("if=pflash,format=raw,readonly=on,file=" ∷ code ∷ [])
              ∷ "-drive"
              ∷ concat ("if=pflash,format=raw,file=" ∷ state_path cfg "efi-vars.fd" ∷ [])
              ∷ []))

  unfoldable pub seed_args : Option ℕ → List String
  unfolding concat decimal
  seed_args none = []
  seed_args (some port) =
      "-smbios"
      ∷ concat ("type=1,serial=ds=nocloud;s=http://10.0.2.2:" ∷ decimal port ∷ "/" ∷ [])
      ∷ []

  -- The port of the host that QEMU forwards to the guest's SSH.
  unfoldable pub forwarding : String
  unfolding concat decimal
  forwarding = concat ("user,id=net0,hostfwd=tcp:127.0.0.1:" ∷ decimal ssh_port ∷ "-:22" ∷ [])

  unfoldable pub qemu_command : String → List String → String → Bool → Option ℕ → List String
  unfolding machine_args display_args seed_args forwarding concat state_path
  qemu_command binary firmware disk display seed_port =
      (binary ∷ machine_args)
      ++ ("-smp" ∷ cpus ∷ "-m" ∷ memory ∷ [])
      ++ firmware
      ++ ("-drive"
          ∷ concat ("file=" ∷ state_path cfg disk ∷ ",if=virtio,format=qcow2,discard=unmap" ∷ [])
          ∷ "-device"
          ∷ "virtio-net-pci,netdev=net0"
          ∷ "-netdev"
          ∷ forwarding
          ∷ "-device"
          ∷ "virtio-gpu-pci"
          ∷ "-device"
          ∷ "virtio-keyboard-pci"
          ∷ "-device"
          ∷ "virtio-tablet-pci"
          ∷ "-device"
          ∷ "virtio-rng-pci"
          ∷ [])
      ++ display_args display
      ++ ("-qmp"
          ∷ concat ("unix:" ∷ state_path cfg "qmp.sock" ∷ ",server,nowait" ∷ [])
          ∷ "-serial"
          ∷ concat ("file:" ∷ state_path cfg "serial.log" ∷ [])
          ∷ "-monitor"
          ∷ "none"
          ∷ [])
      ++ seed_args seed_port

  module _ (sys : System) where
    -- `os.kill(pid, 0)`: whether there is such a process.
    unfoldable pub probe : ℤ → Action (Option ℤ)
    probe pid w =
        let (w', answer) = kill sys pid 0 w in
        elim answer [ ok done ↦ (w', ok (some pid)) | err e ↦ (w', ok none) ]

    unfoldable pub running_pid : Action (Option ℤ)
    unfolding probe parse_int
    running_pid w = elim (lookup "qemu.pid" w.files) [
      | none ↦ (w, ok none)
      | some text ↦ elim (parse_int unicode (codes text)) [
        | none ↦ (w, ok none)
        | some pid ↦ probe pid w
      ]
    ]

    -- QEMU is started, its pid is written, and it must outlive a second.
    unfoldable pub start_qemu : List String → Action (Unit {0})
    unfolding decimal concat state_path
    start_qemu command = do
      pid ← spawn sys command
      written ← write_text "qemu.pid" (decimal pid)
      waited ← sleep sys 1
      (λ w.
          if sys.exited w
          then throw
              (runtime_error
                (concat ("QEMU exited immediately; see " ∷ state_path cfg "qemu.log" ∷ [])))
              w
          else return tt w)

    unfoldable pub launch_new : (String → String) → Bool → Option ℕ → Action (Unit {0})
    unfolding fetch_base_image create_disk qemu_binary firmware_args qemu_command start_qemu
    launch_new content display seed_port = do
      base ← fetch_base_image cfg sys
      disk ← create_disk cfg sys base
      binary ← qemu_binary cfg
      firmware ← firmware_args content
      start_qemu (qemu_command binary firmware disk display seed_port)

    unfoldable pub launch : (String → String) → Bool → Option ℕ → Action (Unit {0})
    unfolding running_pid launch_new concat shown
    launch content display seed_port = do
      pid ← running_pid
      elim (is_pid pid) [
        | true ↦ print (
            concat (
              name
              ∷ " is already running (pid "
              ∷ shown pid
              ∷ "); stop it first to change the display"
              ∷ []))
        | false ↦ launch_new content display seed_port
      ]
