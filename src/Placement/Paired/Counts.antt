-- ===== src/Placement/Paired/Counts.antt =====
-- The counts of a paired summary add up, and the reference ties with itself.
use telar.Prelude.Result.{or_raise-eq-ok, ok-injective, >>=-eq-ok}
use telar.Prelude.{
  some-injective, ◌+◌, ◌≤◌, ◌≡◌, refl, sym, ap, ◌∙◌, subst, inl, inr, ◌⊎◌, String, true, false,
  Option, none, some, List, [], ◌∷◌, map, length, somes, count_if, All, count_if-split,
  length-somes-le, Bool-cases, arith, str_eq,
}
use telar.Number.{Number, IsOrdered}
use telar.Placement.Paired.{
  key_error, or_raise, lookup, ok, paired, Dict, Summary, pairs_of, summarize,
}

module _ (n : Number) where
  open n use {Num, lt, eq}

  length-pairs_of-le :
      (values base : List (Option Num)) → length (pairs_of n values base) ≤ length (somes values)
  unfolding pairs_of
  length-pairs_of-le [] base = omega arith
  length-pairs_of-le (v ∷ vs) [] = omega arith
  length-pairs_of-le (none ∷ vs) (a ∷ base) = length-pairs_of-le vs base
  length-pairs_of-le (some v ∷ vs) (a ∷ base) = ground (arith, length-pairs_of-le vs base)

module _ (n : Number) (o : IsOrdered n) where
  open n use {Num, lt, eq}

  -- Of two numbers one is smaller or they are equal, and never two of these.
  abbrev Splits : Num × Num → Type 0
  Splits (a, b) =
      ((lt a b ≡ true) × (lt b a ≡ false) × (eq a b ≡ false))
      ⊎ (((lt a b ≡ false) × (lt b a ≡ true) × (eq a b ≡ false))
          ⊎ ((lt a b ≡ false) × (lt b a ≡ false) × (eq a b ≡ true)))

  trichotomy : (p : Num × Num) → Splits p
  trichotomy (a, b) = ground (
    arith,
    o.asymm a b,
    o.asymm b a,
    o.eq_excludes a b,
    o.eq_excludes b a,
    o.eq_symm a b,
    o.total a b,
  )

  All-trichotomy : (ps : List (Num × Num)) → All Splits ps
  All-trichotomy [] = tt
  All-trichotomy (p ∷ ps) = (trichotomy p, All-trichotomy ps)

  -- Every round is counted or not, every pair has a counted run, and every pair is a win, a loss
  -- or a tie.
  pub record AddsUp (values : List (Option Num)) (s : Summary n) : Type 0 where
    pub rounds : s.runs + s.runs_not_counted ≡ length values
    pub paired_runs : s.pairs ≤ s.runs
    pub outcomes : s.wins + s.losses + s.ties ≡ s.pairs

  summarize-AddsUp : (values base : List (Option Num)) → AddsUp values (summarize n values base)
  unfolding summarize
  summarize-AddsUp values base = record {
    rounds = omega (arith, length-somes-le values);
    paired_runs = length-pairs_of-le n values base;
    outcomes =
        count_if-split (λ p. lt p.0 p.1) (λ p. lt p.1 p.0) (λ p. eq p.0 p.1)
          (pairs_of n values base) (All-trichotomy (pairs_of n values base));
  }

  -- The rows answer the series, name by name.
  abbrev pub Rows : Dict (List (Option Num)) → Dict (Summary n) → Type 0
  Rows [] [] = Unit
  Rows ((k, values) ∷ series) ((j, s) ∷ rows) = (k ≡ j) × AddsUp values s × Rows series rows
  Rows [] (r ∷ rows) = ⊥
  Rows (s ∷ series) [] = ⊥

  Rows-map :
      (base : List (Option Num)) (series : Dict (List (Option Num)))
      → Rows series (map (λ row. (row.0, summarize n row.1 base)) series)
  Rows-map base [] = tt
  Rows-map base ((k, values) ∷ series) = (refl, summarize-AddsUp values base, Rows-map base series)

  -- `paired` gives each variant of the series, in order, one summary whose counts add up: runs
  -- counted and not counted are the rounds, pairs are at most the counted runs, and wins, losses
  -- and ties are the pairs.
  pub paired-AddsUp :
      (series : Dict (List (Option Num))) (reference : String) (rows : Dict (Summary n))
      → paired n series reference ≡ ok rows
      → Rows series rows
  unfolding paired
  paired-AddsUp series reference rows h =
      let (base, found, made) = >>=-eq-ok (or_raise (lookup reference series) key_error) _ h in
      subst (Rows series) (ok-injective made) (Rows-map base series)

  -- A series against itself.
  self_pairs :
      (base : List (Option Num))
      → (count_if (λ p. lt p.0 p.1) (pairs_of n base base) ≡ 0)
        × (count_if (λ p. lt p.1 p.0) (pairs_of n base base) ≡ 0)
  unfolding pairs_of
  self_pairs [] = (refl, refl)
  self_pairs (none ∷ base) = self_pairs base
  self_pairs (some a ∷ base) = ground (arith, self_pairs base, o.eq_excludes a a (o.eq_refl a))

  self_summary :
      (base : List (Option Num))
      → let s = summarize n base base in (s.wins ≡ 0) × (s.losses ≡ 0) × (s.ties ≡ s.pairs)
  unfolding summarize
  self_summary base =
      let (no_wins, no_losses) = self_pairs base in
      let total = (summarize-AddsUp base base).outcomes in
      (no_wins, no_losses, omega (arith, no_wins, no_losses, total))

  lookup-map :
      (f : List (Option Num) → Summary n) (k : String) (series : Dict (List (Option Num)))
      (values : List (Option Num))
      → lookup k series ≡ some values
      → lookup k (map (λ row. (row.0, f row.1)) series) ≡ some (f values)
  lookup-map f k [] values h = cc
  lookup-map f k ((j, v) ∷ series) values h = elim (Bool-cases (str_eq j k)) [
    | inl e ↦ rw e (ap (λ w. some (f w)) (some-injective (rw e at h)))
    | inr e ↦ rw e (lookup-map f k series values (rw e at h))
  ]

  -- The reference variant neither wins nor loses: it ties with itself in every pair.
  pub paired-reference_ties :
      (series : Dict (List (Option Num))) (reference : String) (rows : Dict (Summary n))
      (s : Summary n)
      → paired n series reference ≡ ok rows
      → lookup reference rows ≡ some s
      → (s.wins ≡ 0) × (s.losses ≡ 0) × (s.ties ≡ s.pairs)
  unfolding paired
  paired-reference_ties series reference rows s h found_row =
      let (base, found, made) = >>=-eq-ok (or_raise (lookup reference series) key_error) _ h in
      let row =
        lookup-map (λ v. summarize n v base) reference series base (or_raise-eq-ok _ _ found) in
      let same : summarize n base base ≡ s =
        some-injective (sym row ∙ ap (lookup reference) (ok-injective made) ∙ found_row) in
      subst (λ t. (t.wins ≡ 0) × (t.losses ≡ 0) × (t.ties ≡ t.pairs)) same (self_summary base)
