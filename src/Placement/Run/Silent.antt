-- ===== src/Placement/Run/Silent.antt =====
-- What it means that a step of the reading adds no problem.
use telar.Json.{Row, Value}
use telar.Placement.Run.Rows.{of_case_kind, one, single, when}
use telar.Number.{Number}
use telar.Prelude.{
  inr, inl, some-injective, Option-cases, ap, Bool, String, map, ◌≡◌, some, [], ◌∷◌, refl, true,
  false, List, ◌++◌,
}
use telar.Placement.Run.{Problem}

pub append-eq-nil : {A : Type 0} (xs ys : List A) → xs ++ ys ≡ [] → (xs ≡ []) × (ys ≡ [])
append-eq-nil [] ys h = (refl, h)
append-eq-nil (x ∷ xs) ys h = cc

pub map-eq-nil : {A B : Type 0} (f : A → B) (xs : List A) → map f xs ≡ [] → xs ≡ []
map-eq-nil f [] h = refl
map-eq-nil f (x ∷ xs) h = cc

module _ (n : Number) where
  pub when-nil : (b : Bool) (p : Problem n) → when n b p ≡ [] → b ≡ false
  unfolding when
  when-nil true p h = cc
  when-nil false p h = refl

  pub single-some : (rows : List (Row n)) (row : Row n) → single n rows ≡ some row → rows ≡ row ∷ []
  unfolding single
  single-some [] row h = cc
  single-some (r ∷ []) row h = ap (λ x. x ∷ []) (some-injective h)
  single-some (r ∷ s ∷ rows) row h = cc

  -- The case has exactly one row of the kind.
  abbrev pub Only : String → Value n → List (Row n) → Row n → Type 0
  Only kind name rows row = of_case_kind n kind name rows ≡ row ∷ []

  pub one-nil :
      (kind : String) (name : Value n) (rows : List (Row n))
      → (one n kind name rows).1 ≡ []
      → (row : Row n) × Only kind name rows row × ((one n kind name rows).0 ≡ some row)
  unfolding one
  one-nil kind name rows h = elim (Option-cases (single n (of_case_kind n kind name rows))) [
    | inl e ↦ cc (rw (e, one) at h)
    | inr (row, e) ↦ (row, single-some (of_case_kind n kind name rows) row e, rw (e, one))
  ]
