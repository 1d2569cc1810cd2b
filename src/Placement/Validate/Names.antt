-- ===== src/Placement/Validate/Names.antt =====
-- The names of the variants that `validate` accepts.
use telar.Prelude.{
  sym, ap, ℕ, suc, ◌≤◌, ◌≡◌, ◌≢◌, inl, inr, String, true, none, some, List, [], ◌∷◌, any, count_if,
  All, All-mono, get_elem?, ltb, str_eq, eq_iff, Bool-cases, arith,
}
use telar.Placement.Validate.{first_duplicate}

-- No text occurs twice.
abbrev pub Distinct : List String → Type 0
Distinct [] = Unit
Distinct (x ∷ xs) = All (λ y. y ≢ x) xs × Distinct xs

first_duplicate-none :
    (names rest : List String)
    → first_duplicate names rest ≡ none
    → All (λ name. count_if (str_eq name) names ≤ 1) rest
unfolding first_duplicate
first_duplicate-none names [] h = tt
first_duplicate-none names (name ∷ rest) h =
    elim (Bool-cases (ltb 1 (count_if (str_eq name) names))) [
      | inl e ↦ cc (rw e at h)
      | inr e ↦ (ground arith, first_duplicate-none names rest (rw e at h))
    ]

absent : (x : String) (xs : List String) → count_if (str_eq x) xs ≤ 0 → All (λ y. y ≢ x) xs
absent x [] h = tt
absent x (y ∷ ys) h = (λ e. ground (arith, eq_iff x y), absent x ys (ground arith))

count_once :
    (names : List String) → All (λ name. count_if (str_eq name) names ≤ 1) names → Distinct names
count_once [] h = tt
count_once (x ∷ xs) h = (
  absent x xs (ground (arith, eq_iff x x)),
  count_once xs (All-mono (λ y c. ground arith) xs h.1),
)

-- The search for a duplicate finds none only where no name occurs twice.
pub first_duplicate-Distinct :
    (names : List String) → first_duplicate names names ≡ none → Distinct names
first_duplicate-Distinct names h = count_once names (first_duplicate-none names names h)

-- A text that the search finds stands at some index.
pub any-index :
    (x : String) (xs : List String) → any (str_eq x) xs ≡ true → (i : ℕ) × (get_elem? xs i ≡ some x)
any-index x [] h = cc
any-index x (y ∷ ys) h = elim (Bool-cases (str_eq x y)) [
  | inl e ↦ (0, ap some (sym ((eq_iff x y).0 e)))
  | inr e ↦ let (i, at) = any-index x ys (rw e at h) in (suc i, at)
]
