-- ===== src/EchoPath/Plan.antt =====
-- `ordered_specs` and `main` of tools/echo_path.py: what is measured, in which order.
use telar.Number.{Number}
use telar.Text.{is_empty}
use telar.Prelude.{
  ℕ, zero, suc, ◌%◌, String, Bool, true, false, not, ◌&&◌, ◌||◌, Option, none, some, List, [], ◌∷◌,
  ◌++◌, map, reverse, length, take, drop, select, any, str_eq, ltb, ◌==◌, if◌then◌else◌,
}
use telar.Prelude.Int.{ℤ, pos, leb_ℤ, ltb_ℤ, pos_part}
use telar.Prelude.Result.{Result, ok, err, Exception, zero_division, raise_if, ◌>>=◌, ◌>>◌}

-- A control has no binary.
pub record Spec : Type 0 where
  pub name : String
  pub binary : Option String

abbrev pub has_binary : Spec → Bool
has_binary spec = elim spec.binary [ none ↦ false | some path ↦ true ]

abbrev pub join_groups : List (List Spec) → List Spec
join_groups [] = []
join_groups (group ∷ groups) = group ++ join_groups groups

-- The binaries are one group, reversed in odd repetitions.
abbrev pub binary_group : ℕ → List Spec → List (List Spec)
binary_group repetition [] = []
binary_group repetition (b ∷ binaries) =
    (if repetition % 2 == 0 then b ∷ binaries else reverse (b ∷ binaries)) ∷ []

unfoldable pub groups_of : List Spec → ℕ → List (List Spec)
groups_of specs repetition =
    map (λ spec. spec ∷ []) (select (λ spec. not (has_binary spec)) specs)
    ++ binary_group repetition (select has_binary specs)

-- The groups, rotated by one place each repetition. `%` by no groups raises.
unfoldable pub rotate_groups : ℕ → List (List Spec) → Result Exception (List Spec)
rotate_groups repetition [] = err zero_division
rotate_groups repetition (group ∷ groups) =
    let offset = repetition % length (group ∷ groups) in
    ok (join_groups (drop offset (group ∷ groups) ++ take offset (group ∷ groups)))

unfoldable pub ordered_specs : List Spec → ℕ → Result Exception (List Spec)
unfolding groups_of rotate_groups
ordered_specs specs repetition = rotate_groups repetition (groups_of specs repetition)

pub data PlanError : Type 0 where
  usage_error : PlanError
  raised : Exception → PlanError

-- `not value` of a text that may be missing.
abbrev pub is_missing : Option String → Bool
is_missing none = true
is_missing (some path) = is_empty path

abbrev pub no_names : List String → Bool
no_names [] = true
no_names (name ∷ names) = false

-- `len(set(names)) == len(names)`
abbrev pub are_unique : List String → Bool
are_unique [] = true
are_unique (name ∷ names) = not (any (str_eq name) names) && are_unique names

module _ (n : Number) (is_finite : n.Num → Bool) where
  open n use {Num, of_nat, lt}

  -- The arguments, as `argparse` leaves them.
  pub record Args : Type 0 where
    pub baseline : Option String
    pub candidate : Option String
    pub samples : ℤ
    pub repetitions : ℤ
    pub gap : Num
    pub trace : Bool
    pub floods : ℕ
    pub controls : List String

  abbrev pub no_binary : Args → Bool
  no_binary args = is_missing args.baseline && is_missing args.candidate

  abbrev pub bad_numbers : Args → Bool
  bad_numbers args =
      leb_ℤ args.samples (pos 0)
      || leb_ℤ args.repetitions (pos 0)
      || not (is_finite args.gap)
      || lt args.gap (of_nat 0)

  unfoldable pub check_arguments : Args → Result PlanError (Unit {0})
  check_arguments args = do
    raise_if (bad_numbers args) usage_error
    raise_if (no_names args.controls && no_binary args) usage_error
    raise_if (args.trace && ltb_ℤ (pos 200) args.samples) usage_error
    raise_if (ltb 0 args.floods && (not (no_names args.controls) || args.trace)) usage_error
    raise_if (ltb 0 args.floods && no_binary args) usage_error
    raise_if (not (are_unique args.controls)) usage_error

  module _ (resolve : String → String) where
    abbrev pub given : String → Option String → List Spec
    given name none = []
    given name (some path) =
        if is_empty path then [] else record { name = name; binary = some (resolve path) } ∷ []

    unfoldable pub specs_of : Args → List Spec
    specs_of args =
        map (λ name. record { name = name; binary = none }) args.controls
        ++ given "baseline" args.baseline
        ++ given "candidate" args.candidate

    -- `for repetition in range(...)`, with `left` of them to go.
    unfoldable pub rounds_from : List Spec → ℕ → ℕ → Result Exception (List (ℕ × Spec))
    unfolding ordered_specs
    rounds_from specs zero repetition = ok []
    rounds_from specs (suc left) repetition = ordered_specs specs repetition >>= λ order.
        rounds_from specs left (suc repetition) >>= λ rest.
        ok (map (λ spec. (repetition, spec)) order ++ rest)

    abbrev pub as_plan : {A : Type 0} → Result Exception A → Result PlanError A
    as_plan (ok a) = ok a
    as_plan (err e) = err (raised e)

    -- The measurements of `main`, in order, each with its repetition.
    unfoldable pub plan : Args → Result PlanError (List (ℕ × Spec))
    unfolding check_arguments specs_of rounds_from
    plan args = check_arguments args >>= λ checked.
        as_plan (rounds_from (specs_of args) (pos_part args.repetitions) 0)
