-- ===== src/Cleanup/Rows.antt =====
-- Which processes of the table have an owned parent.
use telar.Cleanup.{is_member, pids_of}
use telar.Cleanup.Descendants.{children_of}
use telar.Prelude.{
  ap, ◌≡◌, refl, Bool, true, false, ◌&&◌, ◌||◌, List, [], ◌∷◌, ◌++◌, select, any, Bool-cases, inl,
  inr, arith,
}
use telar.Prelude.Int.{eq_ℤ_sound, eq_ℤ_refl, ℤ, eq_ℤ}

-- The table has this process with this parent.
abbrev pub has_row : List (ℤ × ℤ) → ℤ → ℤ → Bool
has_row table pid parent = any (λ row. eq_ℤ pid row.0 && eq_ℤ parent row.1) table

pub member-append :
    (xs ys : List ℤ) (pid : ℤ) → is_member (xs ++ ys) pid ≡ (is_member xs pid || is_member ys pid)
member-append [] ys pid = refl
member-append (x ∷ xs) ys pid = ground (arith, member-append xs ys pid)

any_selected :
    (p : ℤ → Bool) (q : ℤ × ℤ → Bool) (rows : List (ℤ × ℤ))
    → any p (pids_of (select q rows)) ≡ any (λ row. q row && p row.0) rows
any_selected p q [] = refl
any_selected p q (row ∷ rows) = go (q row) (any_selected p q rows)
  where
    go :
        (chosen : Bool)
        → any p (pids_of (select q rows)) ≡ any (λ row. q row && p row.0) rows
        → any p (pids_of (elim chosen [ true ↦ row ∷ select q rows | false ↦ select q rows ]))
          ≡ ((chosen && p row.0) || any (λ row. q row && p row.0) rows)
    go true h = ap (λ b. p row.0 || b) h
    go false h = h

-- The processes whose parent is owned.
pub is_child-rows :
    (rows : List (ℤ × ℤ)) (owned : List ℤ) (pid : ℤ)
    → is_member (children_of rows owned) pid
      ≡ any (λ row. is_member owned row.1 && eq_ℤ pid row.0) rows
unfolding children_of
is_child-rows rows owned pid = any_selected (eq_ℤ pid) (λ row. is_member owned row.1) rows

pub child_row :
    (rows : List (ℤ × ℤ)) (owned : List ℤ) (pid : ℤ)
    → any (λ row. is_member owned row.1 && eq_ℤ pid row.0) rows ≡ true
    → (parent : ℤ) × (has_row rows pid parent ≡ true) × (is_member owned parent ≡ true)
child_row [] owned pid h = cc
child_row ((own, parent) ∷ rows) owned pid h =
    elim (Bool-cases (is_member owned parent && eq_ℤ pid own)) [
      | inl here ↦ (parent, ground (arith, here, eq_ℤ_refl parent), ground (arith, here))
      | inr other ↦
          let (p, found, owns) = child_row rows owned pid (ground (arith, h, other)) in
          (p, ground (arith, found), owns)
    ]

pub row_child :
    (rows : List (ℤ × ℤ)) (owned : List ℤ) (pid parent : ℤ)
    → has_row rows pid parent ≡ true
    → is_member owned parent ≡ true
    → any (λ row. is_member owned row.1 && eq_ℤ pid row.0) rows ≡ true
row_child [] owned pid parent h m = cc
row_child ((own, its) ∷ rows) owned pid parent h m =
    elim (Bool-cases (eq_ℤ pid own && eq_ℤ parent its)) [
      | inl here ↦
          let e : parent ≡ its = eq_ℤ_sound parent its (ground (arith, here)) in
          let m' : is_member owned its ≡ true = rw e at m in ground (arith, here, m')
      | inr other ↦ ground (arith, row_child rows owned pid parent (ground (arith, h, other)) m)
    ]
