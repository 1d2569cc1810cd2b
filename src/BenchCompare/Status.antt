-- ===== src/BenchCompare/Status.antt =====
-- What an exit status of 0 or 1 says of the two runs.
use telar.Prelude.{true, false, ℕ, ◌≡◌, ◌↔◌, ◌⊎◌, Option, some, List, All}
use telar.Prelude.Result.{ok}
use telar.Number.{Number}
use telar.Text.{Unicode}
use telar.Json.{Value, Row, get, py_eq}
use telar.Placement.Run.{Line}
use telar.Benchmarks.{Loaded, load, same_keys}
use telar.BenchCompare.{Limits, Measured, compared_fields, measure, is_slower, is_bigger}

module _ (uni : Unicode) (n : Number) (limits : Limits uni n) where
  -- The case can be measured on both sides, and is neither slower nor bigger by more than a limit.
  abbrev pub Holds : Loaded n → Value n × Row n → Type 0
  Holds new case =
      (m : Measured uni n) × (measure uni n case.0 case.1 new ≡ ok m)
      × (is_slower uni n limits m ≡ false)
      × (is_bigger uni n limits m ≡ false)

  -- What a status other than 2 that `main` returns rests on.
  pub record IsCompared (baseline candidate : Option (List (Line n))) (status : ℕ) : Type 0 where
    pub old_lines : List (Line n)
    pub new_lines : List (Line n)
    pub opened : (baseline ≡ some old_lines) × (candidate ≡ some new_lines)
    pub old : Loaded n
    pub new : Loaded n
    pub loaded : (load n old_lines ≡ ok old) × (load n new_lines ≡ ok new)
    pub metadata :
        All
          (λ field. py_eq n (get field old.metadata) (get field new.metadata) ≡ true)
          compared_fields
    pub cases : same_keys n old.cases new.cases ≡ true
    pub zero_or_one : (status ≡ 0) ⊎ (status ≡ 1)
    pub holds : (status ≡ 0) ↔ All (Holds new) old.cases

  -- What `compare_runs` says of two runs.
  record Weighed (old new : Loaded n) (status : ℕ) : Type 0 where
    same_cases : same_keys n old.cases new.cases ≡ true
    either : (status ≡ 0) ⊎ (status ≡ 1)
    exact : (status ≡ 0) ↔ All (Holds new) old.cases
