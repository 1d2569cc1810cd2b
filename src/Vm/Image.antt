-- ===== src/Vm/Image.antt =====
-- tools/vm/vm.py: the settings, the base image and the disk.
use telar.Text.{Unicode}
use telar.Vm.System.{
  read_text, return, runtime_error, exists, check_run, remove, put, ◌>>=◌, throw, System, Action,
}
use telar.Text.Format.{splitlines, after_last, concat}
use telar.Prelude.Result.{ok}
use telar.Prelude.{ℕ, String, Bool, Option, none, some, List, [], ◌∷◌, str_eq, if◌then◌else◌, ◌||◌}
use text.Mathlib.Text.{starts_with}

-- The constants that the environment sets, and what `platform`, `sys` and `shutil` say of the
-- host.
pub record Settings : Type 0 where
  pub name : String
  pub state : String
  pub disk_size : String
  pub memory : String
  pub cpus : String
  pub ssh_port : ℕ
  -- `platform.machine().lower()`, `sys.platform` and whether `/dev/kvm` exists
  pub machine : String
  pub system : String
  pub has_kvm : Bool
  -- `shutil.which`
  pub which : String → Option String
  -- `path.is_dir()`, and `share/qemu` of the installation that holds a binary
  pub is_dir : String → Bool
  pub share_of : String → String
  -- the SHA-256 of a file's bytes, in hexadecimal
  pub sha256 : String → String
  pub unicode : Unicode

abbrev pub fedora : String
fedora = "43"

abbrev pub fedora_build : String
fedora_build = "1.6"

abbrev pub mirror : String
mirror = "https://dl.fedoraproject.org/pub/fedora/linux/releases"

abbrev pub user : String
user = "telar"

module _ (cfg : Settings) where
  open cfg use {name, state, disk_size, machine, system, has_kvm, which, is_dir, share_of, sha256}

  unfoldable pub guest_arch : String
  guest_arch = if str_eq machine "arm64" || str_eq machine "aarch64" then "aarch64" else "x86_64"

  unfoldable pub accelerator : String
  accelerator = if str_eq system "darwin" then "hvf" else if has_kvm then "kvm" else "tcg"

  unfoldable pub qemu_binary : Action String
  unfolding guest_arch concat
  qemu_binary = elim (which (concat ("qemu-system-" ∷ guest_arch ∷ []))) [
    | none ↦ throw (runtime_error (concat ("qemu-system-" ∷ guest_arch ∷ " is not installed" ∷ [])))
    | some binary ↦ return binary
  ]

  first_dir : List String → Action String
  first_dir [] = throw (runtime_error "QEMU firmware directory not found")
  first_dir (candidate ∷ candidates) =
      let rest = first_dir candidates in if is_dir candidate then return candidate else rest

  unfoldable pub firmware_dir : Action String
  unfolding qemu_binary first_dir
  firmware_dir = do
    binary ← qemu_binary
    let share = share_of binary in
        if is_dir share
        then return share
        else first_dir ("/usr/share/qemu" ∷ "/usr/share/edk2/aarch64" ∷ "/usr/share/OVMF" ∷ [])

  unfoldable pub image_name : String
  unfolding guest_arch concat
  image_name = concat (
      "Fedora-Cloud-Base-Generic-" ∷ fedora ∷ "-" ∷ fedora_build ∷ "." ∷ guest_arch ∷ ".qcow2" ∷ [])

  -- `base.with_suffix(".partial")`, of the name above
  unfoldable pub partial_name : String
  unfolding guest_arch concat
  partial_name = concat (
      "Fedora-Cloud-Base-Generic-" ∷ fedora ∷ "-" ∷ fedora_build ∷ "." ∷ guest_arch ∷ ".partial"
      ∷ [])

  unfoldable pub image_url : String → String
  unfolding guest_arch concat
  image_url file = concat (mirror ∷ "/" ∷ fedora ∷ "/Cloud/" ∷ guest_arch ∷ "/images/" ∷ file ∷ [])

  -- A path of the state directory.
  unfoldable pub state_path : String → String
  unfolding concat
  state_path file = concat (state ∷ "/" ∷ file ∷ [])

  abbrev pub checksum_name : String
  checksum_name =
      concat ("Fedora-Cloud-" ∷ fedora ∷ "-" ∷ fedora_build ∷ "-" ∷ guest_arch ∷ "-CHECKSUM" ∷ [])

  -- What the last line of the image says, if there is one.
  unfoldable pub expected_digest : Option String → List String → Option String
  unfolding image_name concat after_last
  expected_digest expected [] = expected
  expected_digest expected (line ∷ lines) =
      expected_digest
        (if starts_with line (concat ("SHA256 (" ∷ image_name ∷ ") = " ∷ []))
          then some (after_last b' ' line)
          else expected)
        lines

  -- `partial.rename(base)`, of a file that was read
  abbrev rename : String → String → String → Action (Unit {0})
  rename from to text w = (record w { files = put to text (remove from w.files) }, ok tt)

  -- `path.unlink()` of a file that was read
  abbrev unlink : String → Action (Unit {0})
  unlink file w = (record w { files = remove file w.files }, ok tt)

  abbrev pub curl_words : String → String → List String
  curl_words url file =
      ("curl"
        ∷ "--fail"
        ∷ "--location"
        ∷ "--retry"
        ∷ "3"
        ∷ "--progress-bar"
        ∷ "--output"
        ∷ state_path file
        ∷ url
        ∷ [])

  module _ (sys : System) where
    unfoldable pub download : String → String → Action (Unit {0})
    download url file = check_run sys (curl_words url file)

    -- The image's checksum is compared before it gets its name.
    unfoldable pub accept_image : String → Action String
    accept_image expected = do
      image ← read_text partial_name
      if str_eq (sha256 image) expected
          then (do done ← rename partial_name image_name image; return image_name)
          else (do done ← unlink partial_name; throw (runtime_error "image checksum mismatch"))

    -- The image is downloaded only if its checksum is published.
    unfoldable pub with_digest : Option String → Action String
    unfolding download accept_image
    with_digest none = throw (runtime_error "image checksum not published")
    with_digest (some expected) = do
      got ← download (image_url image_name) partial_name
      accept_image expected

    unfoldable pub download_image : Action String
    unfolding download expected_digest splitlines with_digest
    download_image = do
      fetched ← download (image_url checksum_name) "CHECKSUM"
      checksums ← read_text "CHECKSUM"
      with_digest (expected_digest none (splitlines checksums))

    unfoldable pub fetch_base_image : Action String
    unfolding exists download_image
    fetch_base_image w = if exists image_name w then return image_name w else download_image w

    unfoldable pub create_disk : String → Action String
    create_disk base w =
        if exists "disk.qcow2" w
        then return "disk.qcow2" w
        else (do
          made ← check_run sys (
              "qemu-img"
              ∷ "create"
              ∷ "-q"
              ∷ "-f"
              ∷ "qcow2"
              ∷ "-F"
              ∷ "qcow2"
              ∷ "-b"
              ∷ state_path base
              ∷ state_path "disk.qcow2"
              ∷ disk_size
              ∷ [])
          return "disk.qcow2")
            w
