-- ===== src/Cleanup/Descendants.antt =====
-- `descendants` of tools/perf_e2e.py: some processes, and all that came from them.
use telar.Cleanup.{is_member, pids_of}
use telar.Prelude.{
  ℕ, zero, suc, Bool, true, ◌&&◌, List, [], ◌∷◌, ◌++◌, length, select, if◌then◌else◌,
}
use telar.Prelude.Int.{ℤ}

-- `children <= owned`
abbrev pub is_within : List ℤ → List ℤ → Bool
is_within [] owned = true
is_within (pid ∷ children) owned = is_member owned pid && is_within children owned

unfoldable pub children_of : List (ℤ × ℤ) → List ℤ → List ℤ
children_of table owned = pids_of (select (λ row. is_member owned row.1) table)

-- `while True`: each turn but the last adds a process of the table.
unfoldable pub grow_owned : ℕ → List (ℤ × ℤ) → List ℤ → List ℤ
unfolding children_of
grow_owned zero table owned = owned
grow_owned (suc fuel) table owned =
    let more = grow_owned fuel table (owned ++ children_of table owned) in
    if is_within (children_of table owned) owned then owned else more

-- The processes of the table that are owned.
unfoldable pub descendants : List (ℤ × ℤ) → List ℤ → List ℤ
unfolding grow_owned
descendants table roots = select (is_member (grow_owned (length table) table roots)) (pids_of table)
