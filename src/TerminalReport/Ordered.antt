-- ===== src/TerminalReport/Ordered.antt =====
-- `sorted(set(rounds))` of tools/terminal_bench_report.py: which rounds it has, and their order.
use telar.TerminalReport.Paired.{sorted_rounds, insert_round, is_round}
use telar.Prelude.{
  ◌≡◌, refl, sym, ap, ◌∙◌, Bool-cases, inl, inr, Bool, true, false, ◌&&◌, ◌||◌, List, [], ◌∷◌,
  select, All, All-mono, arith,
}
use telar.Prelude.Int.{eq_ℤ_sound, ltb_ℤ, eq_ℤ, ℤ, pos, negsuc}

-- Each of the rounds is greater than the one ahead of it.
abbrev pub Ascending : List ℤ → Type 0
Ascending [] = Unit
Ascending (a ∷ rounds) = All (λ b. ltb_ℤ a b ≡ true) rounds × Ascending rounds

ltb_ℤ_trans : (a b c : ℤ) → ltb_ℤ a b ≡ true → ltb_ℤ b c ≡ true → ltb_ℤ a c ≡ true
ltb_ℤ_trans a b c h k = ground (arith, h, k)

ltb_ℤ_other : (a b : ℤ) → eq_ℤ a b ≡ false → ltb_ℤ a b ≡ false → ltb_ℤ b a ≡ true
ltb_ℤ_other (pos a) (pos b) h k = ground arith
ltb_ℤ_other (pos a) (negsuc b) h k = ground arith
ltb_ℤ_other (negsuc a) (pos b) h k = ground arith
ltb_ℤ_other (negsuc a) (negsuc b) h k = ground arith

pub insert_round-All :
    (P : ℤ → Type 0) (a : ℤ) (xs : List ℤ) → P a → All P xs → All P (insert_round a xs)
unfolding insert_round
insert_round-All P a [] p h = (p, tt)
insert_round-All P a (b ∷ xs) p h = elim (Bool-cases (eq_ℤ a b)) [
  | inl same ↦ rw (same, insert_round) h
  | inr other ↦ elim (Bool-cases (ltb_ℤ a b)) [
    | inl less ↦ rw (other, insert_round, less) (p, h)
    | inr more ↦ rw (other, insert_round, more) (h.0, insert_round-All P a xs p h.1)
  ]
]

insert_round-Ascending : (a : ℤ) (xs : List ℤ) → Ascending xs → Ascending (insert_round a xs)
unfolding insert_round
insert_round-Ascending a [] h = (tt, tt)
insert_round-Ascending a (b ∷ xs) h = elim (Bool-cases (eq_ℤ a b)) [
  | inl same ↦ rw (same, insert_round) h
  | inr other ↦ elim (Bool-cases (ltb_ℤ a b)) [
    | inl less ↦
        rw (other, insert_round, less)
          ((less, All-mono (λ c k. ltb_ℤ_trans a b c less k) xs h.0), h)
    | inr more ↦
        rw (other, insert_round, more)
          (
            insert_round-All (λ c. ltb_ℤ b c ≡ true) a xs (ltb_ℤ_other a b other more) h.0,
            insert_round-Ascending a xs h.1,
          )
  ]
]

pub sorted_rounds-Ascending : (xs : List ℤ) → Ascending (sorted_rounds xs)
unfolding sorted_rounds
sorted_rounds-Ascending [] = tt
sorted_rounds-Ascending (x ∷ xs) =
    insert_round-Ascending x (sorted_rounds xs) (sorted_rounds-Ascending xs)

select-kept : (P : ℤ → Type 0) (q : ℤ → Bool) (xs : List ℤ) → All P xs → All P (select q xs)
select-kept P q [] h = tt
select-kept P q (x ∷ xs) h = elim (Bool-cases (q x)) [
  | inl e ↦ rw (e, All, select) (h.0, select-kept P q xs h.1)
  | inr e ↦ rw (e, All, select) (select-kept P q xs h.1)
]

pub select-Ascending : (q : ℤ → Bool) (xs : List ℤ) → Ascending xs → Ascending (select q xs)
select-Ascending q [] h = tt
select-Ascending q (x ∷ xs) h = elim (Bool-cases (q x)) [
  | inl e ↦ rw (e, select) (select-kept _ q xs h.0, select-Ascending q xs h.1)
  | inr e ↦ rw (e, select) (select-Ascending q xs h.1)
]

is_round-insert :
    (x : ℤ) (xs : List ℤ) (a : ℤ) → is_round (insert_round x xs) a ≡ (eq_ℤ a x || is_round xs a)
unfolding insert_round
is_round-insert x [] a = refl
is_round-insert x (b ∷ xs) a = elim (Bool-cases (eq_ℤ x b)) [
  | inl same ↦
      rw (same, insert_round)
        (twice (eq_ℤ a b) (is_round xs a)
          ∙ ap (λ y. eq_ℤ a y || (eq_ℤ a b || is_round xs a)) (sym (eq_ℤ_sound x b same)))
  | inr other ↦ elim (Bool-cases (ltb_ℤ x b)) [
    | inl less ↦ rw (other, insert_round, less) refl
    | inr more ↦
        rw (other, insert_round, more)
          (ap (λ r. eq_ℤ a b || r) (is_round-insert x xs a)
            ∙ swap (eq_ℤ a b) (eq_ℤ a x) (is_round xs a))
  ]
]
  where
    twice : (p r : Bool) → (p || r) ≡ (p || (p || r))
    twice true r = refl
    twice false r = refl

    swap : (p q r : Bool) → (p || (q || r)) ≡ (q || (p || r))
    swap true true r = refl
    swap true false r = refl
    swap false q r = refl

pub is_round-sorted : (xs : List ℤ) (a : ℤ) → is_round (sorted_rounds xs) a ≡ is_round xs a
unfolding sorted_rounds
is_round-sorted [] a = refl
is_round-sorted (x ∷ xs) a =
    is_round-insert x (sorted_rounds xs) a ∙ ap (λ r. eq_ℤ a x || r) (is_round-sorted xs a)

pub is_round-select :
    (q : ℤ → Bool) (xs : List ℤ) (a : ℤ) → is_round (select q xs) a ≡ (is_round xs a && q a)
is_round-select q [] a = refl
is_round-select q (x ∷ xs) a = elim (Bool-cases (eq_ℤ a x)) [
  | inl same ↦
      let e : q x ≡ q a = ap q (sym (eq_ℤ_sound a x same)) in
      elim (Bool-cases (q x)) [
        | inl kept ↦ rw (kept, select, same) (sym kept ∙ e)
        | inr dropped ↦
            rw (dropped, select, same)
              (is_round-select q xs a
                ∙ none_of (is_round xs a) (q a) (sym e ∙ dropped)
                ∙ sym (sym e ∙ dropped))
      ]
  | inr other ↦ elim (Bool-cases (q x)) [
    | inl kept ↦ rw (kept, select, other) (is_round-select q xs a)
    | inr dropped ↦ rw (dropped, select, other) (is_round-select q xs a)
  ]
]
  where
    none_of : (r b : Bool) → b ≡ false → (r && b) ≡ false
    none_of true b h = h
    none_of false b h = refl
