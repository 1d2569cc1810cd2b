-- ===== src/Reexports.antt =====
-- tools/check_library_reexports.py: which names of a file stand for a library.
-- The matches of the regular expressions enter as lists of their groups.
pub mod Closure
pub mod Exact
use Prim.Native.Char.{code}
use telar.Prelude.{
  ℕ, suc, zero, String, Bool, true, false, not, ◌&&◌, ◌||◌, Option, none, some, List, [], ◌∷◌, any,
  length, select, str_eq, ◌==◌, if◌then◌else◌,
}

-- `name in names`
abbrev pub contains : List String → String → Bool
contains names name = any (str_eq name) names

-- A match: `const name = root.member;`, or `const name = @import("root");`.
pub record Alias : Type 0 where
  pub name : String
  pub root : String

unfoldable pub behind_prefix : String → String → Option String
behind_prefix String.[] text = some text
behind_prefix (String.◌∷◌ p ps) String.[] = none
behind_prefix (String.◌∷◌ p ps) (String.◌∷◌ c cs) =
    let rest = behind_prefix ps cs in if code p == code c then rest else none

abbrev or_whole : Option String → String → String
or_whole none text = text
or_whole (some rest) text = rest

-- `text.removeprefix("telar-")`
unfoldable pub without_telar : String → String
unfolding behind_prefix
without_telar text = or_whole (behind_prefix "telar-" text) text

-- An import of a library, by its name or by its name behind `telar-`.
unfoldable pub is_library : List String → String → Bool
unfolding without_telar
is_library names root = contains names root || contains names (without_telar root)

unfoldable pub imported : List Alias → List String → List String
imported [] names = []
imported (i ∷ imports) names =
    let rest = imported imports names in if is_library names i.root then i.name ∷ rest else rest

-- One pass over the aliases, and whether it has added one.
unfoldable pub pass : List Alias → List String → List String × Bool
pass [] aliases = (aliases, false)
pass (m ∷ matches) aliases = elim (contains aliases m.root && not (contains aliases m.name)) [
  | true ↦ ((pass matches (m.name ∷ aliases)).0, true)
  | false ↦ pass matches aliases
]

-- `while grown`
unfoldable pub grow : ℕ → List Alias → List String → List String
unfolding pass
grow zero matches aliases = aliases
grow (suc fuel) matches aliases =
    let (next, grown) = pass matches aliases in
    let rest = grow fuel matches next in if grown then rest else next

-- Every pass but the last adds the name of a match.
unfoldable pub library_aliases : List Alias → List Alias → List String → List String
unfolding imported grow
library_aliases imports matches names = grow (suc (length matches)) matches (imported imports names)

-- The public constants that `violations` reports for a file.
unfoldable pub reexports : List Alias → List Alias → List Alias → List String → List Alias
unfolding library_aliases
reexports imports matches public names =
    let aliases = library_aliases imports matches names in
    select (λ m. contains aliases m.root) public
