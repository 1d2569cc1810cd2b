-- ===== src/EchoPath/Rounds.antt =====
-- Every repetition of the plan measures every control and binary once.
use telar.Text.{is_empty}
use mathlib.Core.List.{append-nil, Perm, reverse_perm, perm_append_comm, perm_middle, append_assoc}
use mathlib.Core.List.Perm
use telar.EchoPath.Plan.{
  Spec, has_binary, join_groups, binary_group, groups_of, rotate_groups, ordered_specs, usage_error,
  is_missing, no_names, are_unique, Args, no_binary, bad_numbers, check_arguments, given, specs_of,
  rounds_from, plan,
}
use telar.Number.{Number}
use telar.Prelude.{
  sym, ℕ, zero, suc, ◌%◌, ◌<◌, ◌≡◌, refl, ap, ◌∙◌, subst, String, Bool, true, false, not, ◌&&◌,
  ◌||◌, Option, none, some, List, [], ◌∷◌, ◌++◌, map, length, take, drop, select, ltb, ◌==◌,
  Bool-cases, inl, inr, take-append-drop, arith,
}
use telar.Prelude.Int.{pos, leb_ℤ, ltb_ℤ, pos_part}
use telar.Prelude.Result.{raise_if-eq-ok, ok, guard-eq-ok}

select-perm :
    {A : Type 0} (p : A → Bool) (xs : List A) → Perm (select (λ x. not (p x)) xs ++ select p xs) xs
select-perm p [] = Perm.nil
select-perm p (x ∷ xs) = go (p x) (select-perm p xs)
  where
    go :
        (chosen : Bool)
        → Perm (select (λ y. not (p y)) xs ++ select p xs) xs
        → Perm
            ((elim (not chosen) [
              | true ↦ x ∷ select (λ y. not (p y)) xs
              | false ↦ select (λ y. not (p y)) xs
            ])
              ++ (elim chosen [ true ↦ x ∷ select p xs | false ↦ select p xs ]))
            (x ∷ xs)
    go true rest =
        Perm.trans (perm_middle (select (λ y. not (p y)) xs) (select p xs)) (Perm.cons x rest)
    go false rest = Perm.cons x rest

join_groups-append :
    (xs ys : List (List Spec)) → join_groups (xs ++ ys) ≡ join_groups xs ++ join_groups ys
join_groups-append [] ys = refl
join_groups-append (x ∷ xs) ys =
    ap (λ l. x ++ l) (join_groups-append xs ys)
    ∙ sym (append_assoc x (join_groups xs) (join_groups ys))

join_groups-single : (xs : List Spec) → join_groups (map (λ x. x ∷ []) xs) ≡ xs
join_groups-single [] = refl
join_groups-single (x ∷ xs) = ap (λ l. x ∷ l) (join_groups-single xs)

binary_group-perm :
    (repetition : ℕ) (xs : List Spec) → Perm (join_groups (binary_group repetition xs)) xs
binary_group-perm repetition [] = Perm.nil
binary_group-perm repetition (x ∷ xs) = elim (Bool-cases (repetition % 2 == 0)) [
  | inl even ↦ rw (even, append-nil) (Perm.refl (x ∷ xs))
  | inr odd ↦ rw (odd, append-nil) (reverse_perm (x ∷ xs))
]

groups_of-perm :
    (specs : List Spec) (repetition : ℕ) → Perm (join_groups (groups_of specs repetition)) specs
unfolding groups_of
groups_of-perm specs repetition =
    rw (join_groups-append, join_groups-single)
      (Perm.trans
        (Perm.append_left (select (λ spec. not (has_binary spec)) specs)
          (binary_group-perm repetition (select has_binary specs)))
        (select-perm has_binary specs))

rotate_groups-perm :
    (repetition : ℕ) (groups : List (List Spec))
    → 0 < length groups
    → (order : List Spec) × (rotate_groups repetition groups ≡ ok order)
      × Perm order (join_groups groups)
unfolding rotate_groups
rotate_groups-perm repetition [] some_group = absurd (omega arith)
rotate_groups-perm repetition (g ∷ gs) some_group =
    let k = repetition % length (g ∷ gs) in
    (
      _,
      refl,
      rw (join_groups-append (drop k (g ∷ gs)) (take k (g ∷ gs))) (
          Perm.trans
            (perm_append_comm (join_groups (drop k (g ∷ gs))) (join_groups (take k (g ∷ gs))))
            (subst (λ l. Perm l (join_groups (g ∷ gs)))
              (ap join_groups (sym (take-append-drop k (g ∷ gs)))
                ∙ join_groups-append (take k (g ∷ gs)) (drop k (g ∷ gs)))
              (Perm.refl (join_groups (g ∷ gs))))),
    )

-- What a plan runs: in each repetition, from `first` on, the specs in some order.
pub data AreRounds (specs : List Spec) : ℕ → ℕ → List (ℕ × Spec) → Type 0 where
  no_rounds : (first : ℕ) → AreRounds specs first 0 []
  round :
      (first left : ℕ) (order : List Spec) (rest : List (ℕ × Spec))
      → Perm order specs
      → AreRounds specs (suc first) left rest
      → AreRounds specs first (suc left) (map (λ spec. (first, spec)) order ++ rest)

some_group :
    (specs : List Spec) (groups : List (List Spec))
    → Perm (join_groups groups) specs
    → 0 < length specs
    → 0 < length groups
some_group [] groups p some_spec = absurd (omega arith)
some_group (x ∷ xs) [] p some_spec = cc (Perm.nil-eq p)
some_group specs (g ∷ gs) p some_spec = omega arith

ordered_specs-perm :
    (specs : List Spec) (repetition : ℕ)
    → 0 < length specs
    → (order : List Spec) × (ordered_specs specs repetition ≡ ok order) × Perm order specs
unfolding ordered_specs
ordered_specs-perm specs repetition some_spec =
    let (order, e, p) =
      rotate_groups-perm repetition (groups_of specs repetition)
        (some_group specs _ (groups_of-perm specs repetition) some_spec) in
    (order, e, Perm.trans p (groups_of-perm specs repetition))

module _ (n : Number) (is_finite : n.Num → Bool) (resolve : String → String) where
  open n use {Num, of_nat, lt}

  rounds_from-AreRounds :
      (specs : List Spec) (left repetition : ℕ)
      → 0 < length specs
      → (runs : List (ℕ × Spec)) × (rounds_from n is_finite resolve specs left repetition ≡ ok runs)
        × AreRounds specs repetition left runs
  unfolding rounds_from
  rounds_from-AreRounds specs zero repetition some_spec = ([], refl, no_rounds repetition)
  rounds_from-AreRounds specs (suc left) repetition some_spec =
      let (order, e, p) = ordered_specs-perm specs repetition some_spec in
      let (rest, f, rounds) = rounds_from-AreRounds specs left (suc repetition) some_spec in
      (
        map (λ spec. (repetition, spec)) order ++ rest,
        rw (e, f, rounds_from) refl,
        round repetition left order rest p rounds,
      )

  -- What the checks leave of the arguments.
  pub record IsMeasurable (args : Args n is_finite) : Type 0 where
    pub samples : 0 < pos_part args.samples
    pub repetitions : 0 < pos_part args.repetitions
    pub finite : is_finite args.gap ≡ true
    pub not_negative : lt args.gap (of_nat 0) ≡ false
    pub traced : args.trace ≡ true → leb_ℤ args.samples (pos 200) ≡ true
    pub flooded : 0 < args.floods → (args.controls ≡ []) × (args.trace ≡ false)
    pub some_spec : 0 < length (specs_of n is_finite resolve args)
    pub unique : are_unique args.controls ≡ true

  flood_cases :
      (floods : ℕ) (controls : List String) (trace : Bool)
      → 0 < floods
      → (ltb 0 floods && (not (no_names controls) || trace)) ≡ false
      → (controls ≡ []) × (trace ≡ false)
  flood_cases floods [] trace f h = (refl, ground (arith, h))
  flood_cases floods (name ∷ names) trace f h = absurd (ground (arith, h))

  given_candidate :
      (candidate : Option String)
      → is_missing candidate ≡ false
      → 0 < length (given n is_finite resolve "candidate" candidate)
  given_candidate none h = cc
  given_candidate (some path) h = rw h (omega arith)

  some_named :
      (controls : List String) (baseline candidate : Option String)
      → (no_names controls && (is_missing baseline && is_missing candidate)) ≡ false
      → 0
        < length (
            map (λ name. record { name = name; binary = none }) controls
            ++ given n is_finite resolve "baseline" baseline
            ++ given n is_finite resolve "candidate" candidate)
  some_named (name ∷ names) baseline candidate h = omega arith
  some_named [] (some path) candidate h = elim (Bool-cases (is_empty path)) [
    | inr named ↦ rw named (omega arith)
    | inl empty ↦ rw empty (given_candidate candidate (rw empty at h))
  ]
  some_named [] none candidate h = given_candidate candidate h

  check_arguments-IsMeasurable :
      (args : Args n is_finite) → check_arguments n is_finite args ≡ ok tt → IsMeasurable args
  unfolding check_arguments specs_of
  check_arguments-IsMeasurable args h =
      let (numbers, h1) = guard-eq-ok (bad_numbers n is_finite args) usage_error _ h in
      let (something, h2) =
        guard-eq-ok (no_names args.controls && no_binary n is_finite args) usage_error _ h1 in
      let (traced, h3) =
        guard-eq-ok (args.trace && ltb_ℤ (pos 200) args.samples) usage_error _ h2 in
      let (flooded, h4) =
        guard-eq-ok (ltb 0 args.floods && (not (no_names args.controls) || args.trace)) usage_error
          _ h3 in
      let (built, h5) =
        guard-eq-ok (ltb 0 args.floods && no_binary n is_finite args) usage_error _ h4 in
      record {
        samples = ground (arith, numbers);
        repetitions = ground (arith, numbers);
        finite = ground (arith, numbers);
        not_negative = ground (arith, numbers);
        traced = λ t. ground (arith, traced, t);
        flooded = λ f. flood_cases args.floods args.controls args.trace f flooded;
        some_spec = some_named args.controls args.baseline args.candidate something;
        unique = ground (arith, raise_if-eq-ok (not (are_unique args.controls)) usage_error h5);
      }

  -- Where `main` has checked its arguments, its plan is made: at least one sample and one repetition
  -- are asked for, floods come without controls and tracing, the names of the controls differ, and
  -- each repetition, the first one 0, measures each control and each binary exactly once.
  pub plan-AreRounds :
      (args : Args n is_finite)
      → check_arguments n is_finite args ≡ ok tt
      → IsMeasurable args
        × ((runs : List (ℕ × Spec)) × (plan n is_finite resolve args ≡ ok runs)
            × AreRounds (specs_of n is_finite resolve args) 0 (pos_part args.repetitions) runs)
  unfolding plan
  plan-AreRounds args h =
      let m = check_arguments-IsMeasurable args h in
      let (runs, e, rounds) =
        rounds_from-AreRounds (specs_of n is_finite resolve args) (pos_part args.repetitions) 0
          m.some_spec in
      (m, (runs, rw (h, e, plan) refl, rounds))
