-- ===== src/Tests/Boundaries.antt =====
-- A package of two files, of which one imports the other.
use telar.Prelude.{refl, some, List, [], ◌∷◌, All, String, Option, true, false, ◌≡◌}
use telar.Boundaries.{Call, Source, Violation, violations}
use telar.Boundaries.Allowed.{IsAllowed, violations-IsAllowed}

-- Every path leads to the file of its name.
abbrev flat : String → String → Option String
flat name imported = some imported

abbrev call : String → Call
call argument = record { is_import = true; argument = some argument }

abbrev source : String → List Call → Source
source name calls = record { name = name; in_package = true; is_alias = false; calls = some calls }

abbrev files : List String
files = "root.zig" ∷ "view.zig" ∷ []

abbrev sources : List Source
sources =
    source "resources/local_time.zig"
      (call "vt" ∷ record { is_import = false; argument = some "time.h" } ∷ [])
    ∷ source "root.zig" (call "std" ∷ call "view.zig" ∷ [])
    ∷ []

violations-IsAllowed_example : All (IsAllowed flat ("vt" ∷ []) files) sources
unfolding violations
violations-IsAllowed_example = violations-IsAllowed flat ("vt" ∷ []) files sources refl

missing_test :
    violations flat [] files (source "root.zig" (call "gone.zig" ∷ []) ∷ [])
    ≡ Violation.missing_import "root.zig" "gone.zig" ∷ []
unfolding violations
missing_test = refl
