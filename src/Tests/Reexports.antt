-- ===== src/Tests/Reexports.antt =====
-- A file with two chains of aliases, one of which starts at a library.
use telar.Prelude.{[], ◌∷◌, refl, List, String, ◌≡◌, ◌↔◌, true}
use telar.Reexports.{Alias, contains, library_aliases, reexports}
use telar.Reexports.Closure.{Reaches}
use telar.Reexports.Exact.{library_aliases_iff}

abbrev alias : String → String → Alias
alias name root = record { name = name; root = root }

abbrev imports : List Alias
imports = alias "vt" "telar-vt" ∷ alias "std" "std" ∷ []

-- The later alias comes first, so that a second pass is needed.
abbrev aliases : List Alias
aliases = alias "Cell" "screen" ∷ alias "screen" "vt" ∷ alias "mem" "std" ∷ []

library_aliases_iff_example :
    (contains (library_aliases imports aliases ("vt" ∷ [])) "Cell" ≡ true)
    ↔ Reaches imports aliases ("vt" ∷ []) "Cell"
library_aliases_iff_example = library_aliases_iff imports aliases ("vt" ∷ []) "Cell"

cell_test : contains (library_aliases imports aliases ("vt" ∷ [])) "Cell" ≡ true
unfolding library_aliases telar.Reexports.is_library
cell_test = refl
