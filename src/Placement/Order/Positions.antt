-- ===== src/Placement/Order/Positions.antt =====
-- Where each variant runs in a round.
use mathlib.Core.List.{Perm, reverse_perm, perm_append_comm}
use mathlib.Core.List.Perm
use native.Mathlib.Decide.{dec_lt}
use native.Mathlib.Nat.{
  mod-lt, mod-eq_of_lt, mod-eq-sub-mod, mod-add-mod, mod-mod_of_dvd, dvd_of_mod-eq-zero,
}
use telar.Prelude.{
  ℕ, ◌+◌, ◌-◌, ◌%◌, ◌≤◌, ◌<◌, ◌≡◌, Bool, true, false, List, [], ◌∷◌, ◌++◌, reverse, length, take,
  drop, get_elem?, ◌==◌, if◌then◌else◌, arith, sym, ◌∙◌, ap, subst, take-append-drop, length-append,
  length-take, length-drop, get_elem?-append_left, get_elem?-append_right, get_elem?-take,
  get_elem?-drop, get_elem?-reverse,
}
use telar.Prelude.Result.{ok, ok-injective}
use telar.Placement.Order.{rotate, ordered}

-- The index of the variant that runs at position `p` of a round.
abbrev pub index_at : ℕ → ℕ → ℕ → ℕ
index_at n r p = (r + (if r % 2 == 0 then p else n - 1 - p)) % n

module _ {A : Type 0} where
  rotate-perm : (k : ℕ) (xs : List A) → Perm (rotate k xs) xs
  unfolding rotate
  rotate-perm k xs = rw take-append-drop at (perm_append_comm (drop k xs) (take k xs))

  reverse_if-perm :
      (b : Bool) (xs ys : List A) → Perm xs ys → Perm (if b then xs else reverse xs) ys
  reverse_if-perm true xs ys p = p
  reverse_if-perm false xs ys p = Perm.trans (reverse_perm xs) p

  -- A round runs every variant exactly once.
  pub ordered-perm :
      (variants order : List A) (round_index : ℕ)
      → ordered variants round_index ≡ ok order
      → Perm order variants
  unfolding ordered
  ordered-perm [] order r h = cc
  ordered-perm (v ∷ vs) order r h =
      subst (λ o. Perm o (v ∷ vs)) (ok-injective h)
        (reverse_if-perm (r % 2 == 0) (rotate (r % length (v ∷ vs)) (v ∷ vs)) (v ∷ vs)
          (rotate-perm (r % length (v ∷ vs)) (v ∷ vs)))

  length-rotate : (k : ℕ) (xs : List A) → k ≤ length xs → length (rotate k xs) ≡ length xs
  unfolding rotate
  length-rotate k xs h =
      omega (arith, length-append (drop k xs) (take k xs), length-take k xs, length-drop k xs)

  get_elem?-rotate :
      (k p : ℕ) (xs : List A)
      → k < length xs
      → p < length xs
      → get_elem? (rotate k xs) p ≡ get_elem? xs ((k + p) % length xs)
  unfolding rotate
  get_elem?-rotate k p xs hk hp = elim (dec_lt p (length xs - k)) [
    | yes before ↦ rw (mod-eq_of_lt {n = k + p} {m = length xs} (omega arith)) (
        get_elem?-append_left (drop k xs) (take k xs) p (omega (arith, length-drop k xs))
        ∙ get_elem?-drop k xs p)
    | no behind ↦
        let q : ℕ = p - (length xs - k) in
        let split : p ≡ length (drop k xs) + q = omega (arith, length-drop k xs) in
        let wrap : (k + p) % length xs ≡ q =
          mod-eq-sub-mod {n = k + p} {m = length xs} (omega arith)
          ∙ mod-eq_of_lt {n = k + p - length xs} {m = length xs} (omega arith)
          ∙ omega arith in
        ap (get_elem? (drop k xs ++ take k xs)) split
        ∙ get_elem?-append_right (drop k xs) (take k xs) q
        ∙ get_elem?-take k xs q (omega arith)
        ∙ sym (ap (get_elem? xs) wrap)
  ]

  position-arranged :
      (b : Bool) (k p : ℕ) (xs : List A)
      → k < length xs
      → p < length xs
      → get_elem? (if b then rotate k xs else reverse (rotate k xs)) p
        ≡ get_elem? xs ((k + (if b then p else length xs - 1 - p)) % length xs)
  position-arranged true k p xs hk hp = get_elem?-rotate k p xs hk hp
  position-arranged false k p xs hk hp =
      let n : length (rotate k xs) ≡ length xs = length-rotate k xs (omega arith) in
      get_elem?-reverse (rotate k xs) p (omega (arith, n))
      ∙ ap (λ m. get_elem? (rotate k xs) (m - 1 - p)) n
      ∙ get_elem?-rotate k (length xs - 1 - p) xs hk (omega arith)

  -- Position `p` of round `r` runs the variant that stands `p` places behind index `r`, cyclically;
  -- in an odd round, the one that stands `p` places before index `r - 1`.
  pub ordered-position :
      (variants order : List A) (r p : ℕ)
      → p < length variants
      → ordered variants r ≡ ok order
      → get_elem? order p ≡ get_elem? variants (index_at (length variants) r p)
  unfolding ordered
  ordered-position [] order r p hp h = absurd (omega arith)
  ordered-position (v ∷ vs) order r p hp h =
      let xs : List A = v ∷ vs in
      let b : Bool = r % 2 == 0 in
      let k : ℕ = r % length xs in
      subst (λ o. get_elem? o p ≡ get_elem? xs (index_at (length xs) r p)) (ok-injective h)
        (position-arranged b k p xs (mod-lt r (omega arith)) hp
          ∙ ap (get_elem? xs) (mod-add-mod r (length xs) (if b then p else length xs - 1 - p)))

  -- With an even number of variants, as with the four defaults, the variant that runs first stands
  -- at an even index of the list, whatever the round: the others never run first.
  pub ordered-first_even :
      (variants order : List A) (r : ℕ)
      → 0 < length variants
      → length variants % 2 ≡ 0
      → ordered variants r ≡ ok order
      → (i : ℕ) × (i % 2 ≡ 0) × (get_elem? order 0 ≡ get_elem? variants i)
  ordered-first_even variants order r hn even h =
      let n : ℕ = length variants in
      (
        index_at n r 0,
        mod-mod_of_dvd 2 {b = n} (r + (if r % 2 == 0 then 0 else n - 1 - 0))
              (dvd_of_mod-eq-zero 2 even)
            ∙ ground arith,
        ordered-position variants order r 0 hn h,
      )
