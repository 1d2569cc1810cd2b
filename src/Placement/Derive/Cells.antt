-- ===== src/Placement/Derive/Cells.antt =====
-- Which value stands at a round of a series that `derive` compares.
use telar.Placement.Paired.{lookup}
use telar.Placement.Session.{Entry}
use telar.Placement.Derive.{
  Metric, Series, put_series, empty_series, record_value, fill_series, measurement, case_metric,
}
use telar.Number.{Number}
use telar.Json.{Value, null, bool, int, real, text, arr, obj, as_number}
use telar.Prelude.{
  ℕ, zero, suc, ◌<◌, ◌≡◌, ◌⊎◌, refl, sym, ap, ◌∙◌, subst, inl, inr, String, Bool, true, false, not,
  ◌&&◌, Option, none, some, List, [], ◌∷◌, any, length, set, replicate, ltb, str_eq, eq_iff,
  get_elem?, Bool-cases, some-injective, arith, ◌==◌, if◌then◌else◌,
}
use telar.Prelude.Result.{
  ok, key_error, or_raise, >>=-eq-ok, guard-eq-ok, or_raise-eq-ok, ok-injective,
}

get_elem?-set :
    {A : Type 0} (xs : List A) (i k : ℕ) (x : A)
    → i < length xs
    → get_elem? (set xs i x) k ≡ (if i == k then some x else get_elem? xs k)
get_elem?-set [] i k x h = absurd (omega (arith, h))
get_elem?-set (y ∷ xs) zero zero x h = refl
get_elem?-set {A} (y ∷ xs) zero (suc k) x h =
    let apart : (0 == suc k) ≡ false = ground arith in rw apart refl
get_elem?-set (y ∷ xs) (suc i) zero x h =
    let apart : (suc i == 0) ≡ false = ground arith in rw apart refl
get_elem?-set (y ∷ xs) (suc i) (suc k) x h =
    let alike : (suc i == suc k) ≡ (i == k) = ground arith in
    rw alike (get_elem?-set xs i k x (omega (arith, h)))

get_elem?-replicate :
    {A : Type 0} (x : A) (count k : ℕ) → k < count → get_elem? (replicate count x) k ≡ some x
get_elem?-replicate x zero k h = absurd (omega (arith, h))
get_elem?-replicate x (suc count) zero h = refl
get_elem?-replicate x (suc count) (suc k) h = get_elem?-replicate x count k (omega (arith, h))

module _ (n : Number) where
  open n use {Num}

  lookup-put_series :
      (name key : String) (values : List (Option Num)) (series : Series n)
      → lookup key (put_series n name values series)
        ≡ (if str_eq name key then some values else lookup key series)
  unfolding put_series
  lookup-put_series name key values [] = refl
  lookup-put_series name key values ((k, old) ∷ series) = elim (Bool-cases (str_eq k name)) [
    | inl same ↦
        let e : str_eq k key ≡ str_eq name key = ap (λ s. str_eq s key) ((eq_iff k name).0 same) in
        elim (Bool-cases (str_eq k key)) [
          | inl hit ↦ rw (same, put_series, hit, sym e ∙ hit) refl
          | inr miss ↦ rw (same, put_series, miss, sym e ∙ miss) refl
        ]
    | inr other ↦ elim (Bool-cases (str_eq k key)) [
      | inl hit ↦
          let miss : str_eq name key ≡ false = apart name key k (str_eq name key) refl hit other in
          rw (other, put_series, hit, miss) refl
      | inr miss ↦ rw (other, put_series, miss) (lookup-put_series name key values series)
    ]
  ]
    where
      apart :
          (name key k : String) (b : Bool)
          → str_eq name key ≡ b
          → str_eq k key ≡ true
          → str_eq k name ≡ false
          → str_eq name key ≡ false
      apart name key k false e hit other = e
      apart name key k true e hit other =
          let same : k ≡ name = (eq_iff k key).0 hit ∙ sym ((eq_iff name key).0 e) in
          let hits : str_eq k name ≡ true = (eq_iff k name).1 same in cc (hits, other)

  -- The value of the last run that counts, of the variant and the round; that of before where there
  -- is none.
  abbrev pub cell : Metric → Value n → String → ℕ → Option Num → List (Entry n) → Option Num
  cell metric case name round before [] = before
  cell metric case name round before (run ∷ runs) =
      cell metric case name round
        (if run.counts && str_eq run.variant.name name && (run.round == round)
          then as_number n (case_metric n metric case run.parsed.cases)
          else before)
        runs

  measurement-as_number :
      (v : Value n) (x : Option Num) → measurement n v ≡ ok x → x ≡ as_number n v
  unfolding measurement as_number
  measurement-as_number null x h = sym (ok-injective h)
  measurement-as_number (bool b) x h = sym (ok-injective h)
  measurement-as_number (int i) x h = sym (ok-injective h)
  measurement-as_number (real y) x h = sym (ok-injective h)
  measurement-as_number (text s) x h = cc
  measurement-as_number (arr xs) x h = cc
  measurement-as_number (obj fs) x h = cc

  -- At a round of a variant's list there is a value.
  abbrev pub HasCell : Series n → String → ℕ → Option Num → Type 0
  HasCell series name round value =
      (values : List (Option Num)) × (lookup name series ≡ some values)
      × (get_elem? values round ≡ some value)

  record_value-HasCell :
      (run : Entry n) (value before : Option Num) (series after : Series n) (name : String)
      (round : ℕ)
      → record_value n run value series ≡ ok after
      → HasCell series name round before
      → HasCell after name round
          (if str_eq run.variant.name name && (run.round == round) then value else before)
  unfolding record_value
  record_value-HasCell run value before series after name round h (old, found, cell_is) =
      let (values, held, h1) =
        >>=-eq-ok (or_raise (lookup run.variant.name series) key_error) _ h in
      let (fits, h2) = guard-eq-ok (not (ltb run.round (length values))) _ _ h1 in
      let inside : run.round < length values = within run.round (length values) fits in
      let there : lookup run.variant.name series ≡ some values = or_raise-eq-ok _ _ held in
      subst
        (λ s.
          HasCell s name round
            (if str_eq run.variant.name name && (run.round == round) then value else before))
        (ok-injective h2)
        (elim (Bool-cases (str_eq run.variant.name name)) [
          | inr other ↦ rw other (
            old,
            lookup-put_series run.variant.name name (set values run.round value) series
                ∙ rw other found,
            cell_is,
          )
          | inl same ↦
              let is_old : values ≡ old = some-injective (
                sym there
                ∙ ap (λ k. lookup k series) ((eq_iff run.variant.name name).0 same)
                ∙ found) in
              rw same (
                set values run.round value,
                lookup-put_series run.variant.name name (set values run.round value) series
                    ∙ rw same refl,
                get_elem?-set values run.round round value inside
                    ∙ choose (run.round == round) (ap (λ l. get_elem? l round) is_old ∙ cell_is),
              )
        ])
    where
      within : (i size : ℕ) → not (ltb i size) ≡ false → i < size
      within i size h = ground arith

      choose :
          (b : Bool)
          → {other : Option (Option Num)} → other ≡ some before
          → (if b then some value else other) ≡ some (if b then value else before)
      choose true e = refl
      choose false e = e

  pub fill_series-HasCell :
      (metric : Metric) (case : Value n) (runs : List (Entry n)) (before : Option Num)
      (series after : Series n) (name : String) (round : ℕ)
      → fill_series n metric case runs series ≡ ok after
      → HasCell series name round before
      → HasCell after name round (cell metric case name round before runs)
  unfolding fill_series
  fill_series-HasCell metric case [] before series after name round h c =
      subst (λ s. HasCell s name round before) (ok-injective h) c
  fill_series-HasCell metric case (run ∷ runs) before series after name round h c =
      elim (Bool-cases run.counts) [
        | inr e ↦ rw e (
            fill_series-HasCell metric case runs before series after name round
              (rw (e, fill_series) at h) c)
        | inl e ↦
            let (value, measured, h1) =
              >>=-eq-ok (measurement n (case_metric n metric case run.parsed.cases)) _
                (rw (e, fill_series) at h) in
            let (series', put, h2) = >>=-eq-ok (record_value n run value series) _ h1 in
            let is_value = measurement-as_number _ value measured in
            rw (e, sym is_value)
              (fill_series-HasCell metric case runs _ series' after name round h2
                (record_value-HasCell run value before series series' name round put c))
      ]

  pub empty_series-HasCell :
      (rounds : ℕ) (names : List String) (series : Series n) (name : String) (round : ℕ)
      → round < rounds
      → (any (λ k. str_eq k name) names ≡ true) ⊎ HasCell series name round none
      → HasCell (empty_series n rounds names series) name round none
  unfolding empty_series
  empty_series-HasCell rounds [] series name round h (inl e) = cc
  empty_series-HasCell rounds [] series name round h (inr c) = c
  empty_series-HasCell rounds (k ∷ names) series name round h known =
      empty_series-HasCell rounds names (put_series n k (replicate rounds none) series) name round h
        (elim (Bool-cases (str_eq k name)) [
          | inl same ↦ inr (
            replicate rounds none,
            lookup-put_series k name (replicate rounds none) series ∙ rw same refl,
            get_elem?-replicate none rounds round h,
          )
          | inr other ↦ elim known [
            | inl later ↦ inl (rw other at later)
            | inr (values, found, cell_is) ↦ inr (
              values,
              lookup-put_series k name (replicate rounds none) series ∙ rw other found,
              cell_is,
            )
          ]
        ])
