-- ===== src/Statistics/Sorting.antt =====
-- Sorting keeps the values and puts them in order; the least and greatest values bound the others.
use mathlib.Core.List.{Perm}
use mathlib.Core.List.Perm
use telar.Prelude.{
  some-injective, subst, some, if◌then◌else◌, All-mono, ◌≡◌, inl, inr, false, List, [], ◌∷◌, All,
  Bool-cases,
}
use telar.Number.{Number, IsOrdered}
use telar.Statistics.{maximum, minimum, greatest, least, insert, sorted}

module _ (n : Number) where
  open n use {Num, lt}

  insert-perm : (x : Num) (xs : List Num) → Perm (insert n x xs) (x ∷ xs)
  unfolding insert
  insert-perm x [] = Perm.refl (x ∷ [])
  insert-perm x (y ∷ ys) = elim (Bool-cases (lt y x)) [
    | inl e ↦ rw e (Perm.trans (Perm.cons y (insert-perm x ys)) (Perm.swap x y ys))
    | inr e ↦ rw e (Perm.refl (x ∷ y ∷ ys))
  ]

  -- Sorting loses no value and adds none.
  pub sorted-perm : (xs : List Num) → Perm (sorted n xs) xs
  unfolding sorted
  sorted-perm [] = Perm.refl []
  sorted-perm (x ∷ xs) = Perm.trans (insert-perm x (sorted n xs)) (Perm.cons x (sorted-perm xs))

  -- No value is followed by a smaller one.
  abbrev pub IsSorted : List Num → Type 0
  IsSorted [] = Unit
  IsSorted (x ∷ xs) = All (λ y. lt y x ≡ false) xs × IsSorted xs

  insert-All : (P : Num → Type 0) (x : Num) (xs : List Num) → P x → All P xs → All P (insert n x xs)
  unfolding insert
  insert-All P x [] p h = (p, tt)
  insert-All P x (y ∷ ys) p h = elim (Bool-cases (lt y x)) [
    | inl e ↦ rw e ((h.0, insert-All P x ys p h.1))
    | inr e ↦ rw e ((p, h))
  ]

module _ (n : Number) (o : IsOrdered n) where
  open n use {Num, lt}

  insert-IsSorted : (x : Num) (xs : List Num) → IsSorted n xs → IsSorted n (insert n x xs)
  unfolding insert
  insert-IsSorted x [] h = (tt, tt)
  insert-IsSorted x (y ∷ ys) h = elim (Bool-cases (lt y x)) [
    | inl e ↦
        rw e
          ((insert-All n (λ z. lt z y ≡ false) x ys (o.asymm y x e) h.0, insert-IsSorted x ys h.1))
    | inr e ↦ rw e (((e, All-mono (λ z below. o.le_trans x y z e below) ys h.0), h))
  ]

  -- The sorted list is in order.
  pub sorted-IsSorted : (xs : List Num) → IsSorted n (sorted n xs)
  unfolding sorted
  sorted-IsSorted [] = tt
  sorted-IsSorted (x ∷ xs) = insert-IsSorted x (sorted n xs) (sorted-IsSorted xs)

  lt_irrefl : (a : Num) → lt a a ≡ false
  lt_irrefl a = o.eq_excludes a a (o.eq_refl a)

  smaller-le :
      (x m : Num)
      → (lt m (if lt x m then x else m) ≡ false) × (lt x (if lt x m then x else m) ≡ false)
  smaller-le x m = elim (Bool-cases (lt x m)) [
    | inl e ↦ rw e ((o.asymm x m e, lt_irrefl x))
    | inr e ↦ rw e ((lt_irrefl m, e))
  ]

  least-le : (m : Num) (xs : List Num) → All (λ y. lt y (least n m xs) ≡ false) (m ∷ xs)
  unfolding least
  least-le m [] = (lt_irrefl m, tt)
  least-le m (x ∷ xs) =
      let m' : Num = if lt x m then x else m in
      let (below, rest) = least-le m' xs in
      let (first, second) = smaller-le x m in
      (
        o.le_trans (least n m' xs) m' m below first,
        (o.le_trans (least n m' xs) m' x below second, rest),
      )

  larger-ge :
      (x m : Num)
      → (lt (if lt m x then x else m) m ≡ false) × (lt (if lt m x then x else m) x ≡ false)
  larger-ge x m = elim (Bool-cases (lt m x)) [
    | inl e ↦ rw e ((o.asymm m x e, lt_irrefl x))
    | inr e ↦ rw e ((lt_irrefl m, e))
  ]

  greatest-ge : (m : Num) (xs : List Num) → All (λ y. lt (greatest n m xs) y ≡ false) (m ∷ xs)
  unfolding greatest
  greatest-ge m [] = (lt_irrefl m, tt)
  greatest-ge m (x ∷ xs) =
      let m' : Num = if lt m x then x else m in
      let (above, rest) = greatest-ge m' xs in
      let (first, second) = larger-ge x m in
      (
        o.le_trans m m' (greatest n m' xs) first above,
        (o.le_trans x m' (greatest n m' xs) second above, rest),
      )

  pub minimum-le : (xs : List Num) (m : Num) → minimum n xs ≡ some m → All (λ y. lt y m ≡ false) xs
  unfolding minimum
  minimum-le [] m h = cc
  minimum-le (x ∷ xs) m h =
      subst (λ k. All (λ y. lt y k ≡ false) (x ∷ xs)) (some-injective h) (least-le x xs)

  pub maximum-ge : (xs : List Num) (m : Num) → maximum n xs ≡ some m → All (λ y. lt m y ≡ false) xs
  unfolding maximum
  maximum-ge [] m h = cc
  maximum-ge (x ∷ xs) m h =
      subst (λ k. All (λ y. lt k y ≡ false) (x ∷ xs)) (some-injective h) (greatest-ge x xs)
