-- ===== src/Placement/Session/Rounds.antt =====
-- A loop that no exception ends runs every variant once in every round.
use mathlib.Core.List.{append-nil, Perm}
use mathlib.Core.Path.{ap₂}
use telar.Prelude.{
  List, [], ◌∷◌, ◌++◌, none, refl, ◌≡◌, ℕ, suc, zero, All, map, inl, inr, ap, sym, ◌∙◌, subst, ◌&&◌,
  Bool-cases, Option-cases,
}
use telar.Prelude.Result.{ok, >>=-eq-ok, ok-injective, Result-cases}
use telar.Number.{Number}
use telar.Placement.{Variant}
use telar.Placement.Order.{ordered}
use telar.Placement.Order.Positions.{ordered-perm}
use telar.Placement.Validate.{Settings}
use telar.Placement.Run.Output.{parse_run}
use telar.Placement.Session.{
  Report, Entry, Results, add_run, entry_of, none_left, run_one, run_order, run_rounds, no_results,
}

append_assoc : {A : Type 0} (xs ys zs : List A) → (xs ++ ys) ++ zs ≡ xs ++ (ys ++ zs)
append_assoc [] ys zs = refl
append_assoc (x ∷ xs) ys zs = ap (λ l. x ∷ l) (append_assoc xs ys zs)

module _ (n : Number) where
  abbrev pub variant_of : Entry n → Variant
  variant_of e = e.variant

  -- The runs of one round: all of that round, and every variant once.
  pub record IsRound (round : ℕ) (variants : List Variant) (runs : List (Entry n)) : Type 0 where
    pub of_round : All (λ (e : Entry n). e.round ≡ round) runs
    pub once : Perm (map variant_of runs) variants

  -- The runs of `count` rounds, one after the other.
  abbrev pub AreRounds : ℕ → ℕ → List Variant → List (Entry n) → Type 0
  AreRounds zero round variants runs = runs ≡ []
  AreRounds (suc count) round variants runs =
      (first : List (Entry n)) × (rest : List (Entry n)) × (runs ≡ first ++ rest)
      × IsRound round variants first
      × AreRounds count (suc round) variants rest

  add_run-runs :
      (e : Entry n) (results : Results n) → (add_run n e results).runs ≡ results.runs ++ e ∷ []
  unfolding add_run
  add_run-runs e results = elim (Bool-cases (none_left n results.layout && e.counts)) [
    | inl c ↦ rw (c, add_run) refl
    | inr c ↦ rw (c, add_run) refl
  ]

  module _ (world : ℕ → ℕ → Variant → Report n) (settings : Settings n) where
    run_one-origin :
        (round position : ℕ) (variant : Variant) (e : Entry n)
        → run_one n world settings round position variant ≡ ok e
        → (e.round ≡ round) × (e.variant ≡ variant)
    unfolding run_one entry_of
    run_one-origin round position variant e h =
        let (read, parsed, made) =
          >>=-eq-ok (parse_run n (world round position variant).stdout variant settings) _ h in
        subst (λ (x : Entry n). (x.round ≡ round) × (x.variant ≡ variant)) (ok-injective made)
          (refl, refl)

    -- What a round adds to the runs.
    record Added (round : ℕ) (order : List Variant) (before behind : List (Entry n)) : Type 0 where
      runs : List (Entry n)
      appended : behind ≡ before ++ runs
      of_round : All (λ (e : Entry n). e.round ≡ round) runs
      in_order : map variant_of runs ≡ order

    run_order-Added :
        (round position : ℕ) (order : List Variant) (results : Results n)
        → (run_order n world settings round position order results).1 ≡ none
        → Added round order results.runs
            (run_order n world settings round position order results).0.runs
    unfolding run_order
    run_order-Added round position [] results h = record {
      runs = [];
      appended = sym (append-nil results.runs);
      of_round = tt;
      in_order = refl;
    }
    run_order-Added round position (variant ∷ order) results h =
        elim (Result-cases (run_one n world settings round position variant)) [
          | inr (raised, e) ↦ cc (rw (e, run_order) at h)
          | inl (entry, e) ↦
              let a =
                run_order-Added round (suc position) order (add_run n entry results)
                  (rw (e, run_order) at h) in
              let (at_round, of_variant) = run_one-origin round position variant entry e in
              rw (e, run_order)
                (record {
                  runs = entry ∷ a.runs;
                  appended =
                      a.appended
                      ∙ ap (λ l. l ++ a.runs) (add_run-runs entry results)
                      ∙ append_assoc results.runs (entry ∷ []) a.runs;
                  of_round = (at_round, a.of_round);
                  in_order = ap₂ (λ v vs. v ∷ vs) of_variant a.in_order;
                })
        ]

    run_rounds-AreRounds_from :
        (count round : ℕ) (variants : List Variant) (results : Results n)
        → (run_rounds n world settings count round variants results).1 ≡ none
        → (runs : List (Entry n)) × ((run_rounds n world settings count round variants
              results).0.runs
            ≡ results.runs ++ runs)
          × AreRounds count round variants runs
    unfolding run_rounds
    run_rounds-AreRounds_from zero round variants results h =
        ([], sym (append-nil results.runs), refl)
    run_rounds-AreRounds_from (suc count) round variants results h =
        elim (Result-cases (ordered variants round)) [
          | inr (raised, e) ↦ cc (rw (e, run_rounds) at h)
          | inl (order, e) ↦
              elim (Option-cases (run_order n world settings round 0 order results).1) [
                | inr (raised, bad) ↦ cc (rw (e, bad, run_rounds) at h)
                | inl fine ↦
                    let a = run_order-Added round 0 order results fine in
                    let (rest, appended, later) =
                      run_rounds-AreRounds_from count (suc round) variants
                        (run_order n world settings round 0 order results).0
                        (rw (e, fine, run_rounds) at h) in
                    (
                      a.runs ++ rest,
                      rw (e, fine, run_rounds)
                          (appended
                            ∙ ap (λ l. l ++ rest) a.appended
                            ∙ append_assoc results.runs a.runs rest),
                      (
                        a.runs,
                        rest,
                        refl,
                        record {
                          of_round = a.of_round;
                          once =
                              subst (λ vs. Perm vs variants) (sym a.in_order)
                                (ordered-perm variants order round e);
                        },
                        later,
                      ),
                    )
              ]
        ]

    -- Where no exception ends the loop, its runs are those of `count` rounds, numbered from 0, one
    -- after the other, and each round runs every variant exactly once.
    pub run_rounds-AreRounds :
        (count : ℕ) (variants : List Variant)
        → (run_rounds n world settings count 0 variants (no_results n)).1 ≡ none
        → AreRounds count 0 variants
            (run_rounds n world settings count 0 variants (no_results n)).0.runs
    run_rounds-AreRounds count variants h =
        let (runs, same, rounds) = run_rounds-AreRounds_from count 0 variants (no_results n) h in
        subst (AreRounds count 0 variants) (sym same) rounds
