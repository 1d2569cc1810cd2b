-- ===== src/TerminalReport/Fields.antt =====
-- What `load_runs` reads in a row: the identity of a run, its values and their quantiles.
use telar.Statistics.{percentile, maximum, median}
use telar.Prelude.Int.{negsuc, ℤ, pos, ltb_ℤ}
use telar.Json.{
  find, null, obj, arr, text, real, bool, int, nil, cons, get, truthy, cons, Row, Value, Items,
}
use telar.TerminalReport.Runs.{
  as_report, as_text, Identity, read_case, as_items, read_identity, known_mode, as_count, quantile,
  raised, Quantiles, read_round, quantiles, within_samples, invalid_measurement, finite_number,
  run_key, item_count, is_mode, read_samples, read_warmup, samples_of,
}
use telar.Number.{Number}
use telar.Prelude.{
  ◌∙◌, ◌==◌, ltb, zero, suc, some-injective, subst, suc, ℕ, ◌<◌, ◌≡◌, refl, ap, sym, Bool-cases,
  Option-cases, inl, inr, String, Bool, true, false, Option, none, some, List, [], ◌∷◌, length, All,
  arith, drop, length-drop, ltb→lt,
}
use telar.Prelude.Result.{
  err, Exception, Result, value_error, ok_or_err, ok-injective, or_raise-eq-ok, or_raise,
  guard-eq-ok, >>=-eq-ok, ok,
}

pub positive : (k : ℕ) → (k == 0) ≡ false → 0 < k
positive k h = ground arith

drop-All {ℓ} : {A : Type 0} (P : A → Type ℓ) (k : ℕ) (xs : List A) → All P xs → All P (drop k xs)
drop-All P zero xs h = h
drop-All P (suc k) [] h = tt
drop-All P (suc k) (x ∷ xs) h = drop-All P k xs h.1

module _ (n : Number) (is_finite : n.Num → Bool) where
  open n use {Num, lt, of_nat, div}

  abbrev NotNegative : Num → Type 0
  NotNegative x = lt x (of_nat 0) ≡ false

  -- The numbers of the samples, in their order.
  abbrev pub AreNumbers : Items Num → List Num → Type 0
  AreNumbers nil [] = Unit
  AreNumbers nil (x ∷ xs) = ⊥
  AreNumbers (cons v vs) [] = ⊥
  AreNumbers (cons v vs) (x ∷ xs) = (finite_number n is_finite v ≡ some x) × AreNumbers vs xs

  -- Each of a run's statistics is that of its values.
  pub record AreQuantiles (values : List Num) (q : Quantiles n is_finite) : Type 0 where
    pub count : q.count ≡ length values
    pub p50 : median n values ≡ some q.p50_ms
    pub p95 : percentile n values (div (of_nat 95) (of_nat 100)) ≡ ok q.p95_ms
    pub p99 : percentile n values (div (of_nat 99) (of_nat 100)) ≡ ok q.p99_ms
    pub most : maximum n values ≡ some q.max_ms

  -- What the samples give: as many numbers, in order, none of them negative.
  record AreSamples (vs : Items Num) (xs : List Num) : Type 0 where
    not_negative : All NotNegative xs
    size : length xs ≡ item_count n is_finite vs
    numbers : AreNumbers vs xs

  samples_of-AreSamples :
      (vs : Items Num) (xs : List Num) → samples_of n is_finite vs ≡ some xs → AreSamples vs xs
  unfolding samples_of
  samples_of-AreSamples nil xs h =
      subst (AreSamples nil) (some-injective h)
        (record { not_negative = tt; size = refl; numbers = tt })
  samples_of-AreSamples (cons v vs) xs h = elim (Option-cases (finite_number n is_finite v)) [
    | inl e ↦ cc (rw (e, samples_of) at h)
    | inr (x, e) ↦ elim (Bool-cases (lt x (of_nat 0))) [
      | inl negative ↦ cc (rw (e, samples_of, negative) at h)
      | inr fine ↦ elim (Option-cases (samples_of n is_finite vs)) [
        | inl r ↦ cc (rw (e, samples_of, fine, r) at h)
        | inr (rest, r) ↦
            let more = samples_of-AreSamples vs rest r in
            subst (AreSamples (cons v vs)) (some-injective (rw (e, samples_of, fine, r) at h))
              (record {
                not_negative = (fine, more.not_negative);
                size = omega (arith, more.size);
                numbers = (e, more.numbers);
              })
      ]
    ]
  ]

  within_samples-ok :
      (w : Option ℕ) (s : Option (Items Num)) (k : ℕ) (vs : Items Num)
      → within_samples n is_finite w s ≡ ok (k, vs)
      → (w ≡ some k) × (s ≡ some vs) × (k < item_count n is_finite vs)
  unfolding within_samples
  within_samples-ok none s k vs h = absurd (ok_or_err (sym h))
  within_samples-ok (some w) none k vs h = absurd (ok_or_err (sym h))
  within_samples-ok (some w) (some samples) k vs h =
      elim (Bool-cases (ltb w (item_count n is_finite samples))) [
        | inl inside ↦
            let same = ok-injective (rw (inside, within_samples) at h) in
            (
              ap (λ p. some p.0) same,
              ap (λ p. some p.1) same,
              subst (λ p. p.0 < item_count n is_finite p.1) same (ltb→lt w _ inside),
            )
        | inr outside ↦ absurd (ok_or_err (sym (rw (outside, within_samples) at h)))
      ]

  as_count-some : (v : Value n) (k : ℕ) → as_count n is_finite v ≡ some k → v ≡ int (pos k)
  unfolding as_count
  as_count-some (int (pos w)) k h = ap (λ j. int (pos j)) (some-injective h)
  as_count-some (int (negsuc w)) k h = cc
  as_count-some null k h = cc
  as_count-some (bool b) k h = cc
  as_count-some (real x) k h = cc
  as_count-some (text s) k h = cc
  as_count-some (arr xs) k h = cc
  as_count-some (obj fs) k h = cc

  as_items-some : (v : Value n) (vs : Items Num) → as_items n is_finite v ≡ some vs → v ≡ arr vs
  unfolding as_items
  as_items-some (arr xs) vs h = ap arr (some-injective h)
  as_items-some null vs h = cc
  as_items-some (bool b) vs h = cc
  as_items-some (int i) vs h = cc
  as_items-some (real x) vs h = cc
  as_items-some (text s) vs h = cc
  as_items-some (obj fs) vs h = cc

  as_text-some : (v : Value n) (s : String) → as_text n is_finite v ≡ some s → v ≡ text s
  unfolding as_text
  as_text-some (text t) s h = ap text (some-injective h)
  as_text-some null s h = cc
  as_text-some (bool b) s h = cc
  as_text-some (int i) s h = cc
  as_text-some (real x) s h = cc
  as_text-some (arr xs) s h = cc
  as_text-some (obj fs) s h = cc

  run_key-ok :
      (key : String) (row : Row n) (v : Value n)
      → run_key n is_finite key row ≡ ok v
      → find key row ≡ some v
  unfolding run_key
  run_key-ok key row v h = or_raise-eq-ok _ _ h

  -- The values of a row.
  pub record AreValues (row : Row n) (xs : List Num) : Type 0 where
    pub some_left : 0 < length xs
    pub not_negative : All NotNegative xs
    pub warmup : ℕ
    pub samples : Items Num
    pub numbers : List Num
    pub warmup_of : find "warmup" row ≡ some (int (pos warmup))
    pub samples_in : find "gpu_ms" row ≡ some (arr samples)
    pub numbers_of : AreNumbers samples numbers
    pub left : xs ≡ drop warmup numbers

  pub read_samples-AreValues :
      (row : Row n) (xs : List Num) → read_samples n is_finite row ≡ ok xs → AreValues row xs
  unfolding read_samples read_warmup
  read_samples-AreValues row xs h =
      let (w, a, h1) = >>=-eq-ok (run_key n is_finite "warmup" row) _ h in
      let (s, b, h2) = >>=-eq-ok (run_key n is_finite "gpu_ms" row) _ h1 in
      let ((k, vs), c, h3) = >>=-eq-ok (read_warmup n is_finite w s) _ h2 in
      let (sound, h4) = guard-eq-ok (truthy n (get "failed" row)) invalid_measurement _ h3 in
      let (numbers, d, h5) =
        >>=-eq-ok (or_raise (samples_of n is_finite vs) invalid_measurement) _ h4 in
      let read = samples_of-AreSamples vs numbers (or_raise-eq-ok _ _ d) in
      let (count, items, inside) = within_samples-ok _ _ k vs c in
      subst (AreValues row) (ok-injective h5) (record {
        some_left = omega (arith, length-drop k numbers, read.size, inside);
        not_negative = drop-All NotNegative k numbers read.not_negative;
        warmup = k;
        samples = vs;
        numbers = numbers;
        warmup_of = run_key-ok "warmup" row w a ∙ ap some (as_count-some w k count);
        samples_in = run_key-ok "gpu_ms" row s b ∙ ap some (as_items-some s vs items);
        numbers_of = read.numbers;
        left = refl;
      })

  as_report-ok :
      {A : Type 0} (result : Result Exception A) (a : A) → as_report result ≡ ok a → result ≡ ok a
  as_report-ok (ok b) a h = ap ok (ok-injective h)
  as_report-ok (err e) a h = absurd (ok_or_err (sym h))

  pub quantiles-AreQuantiles :
      (values : List Num) (q : Quantiles n is_finite)
      → quantiles n is_finite values ≡ ok q
      → AreQuantiles values q
  unfolding quantiles quantile
  quantiles-AreQuantiles values q h =
      let (p50, a, h1) = >>=-eq-ok (or_raise (median n values) (raised value_error)) _ h in
      let (p95, b, h2) = >>=-eq-ok (quantile n is_finite values 95) _ h1 in
      let (p99, c, h3) = >>=-eq-ok (quantile n is_finite values 99) _ h2 in
      let (most, d, h4) = >>=-eq-ok (or_raise (maximum n values) (raised value_error)) _ h3 in
      subst (AreQuantiles values) (ok-injective h4) (record {
        count = refl;
        p50 = or_raise-eq-ok _ _ a;
        p95 = as_report-ok _ p95 b;
        p99 = as_report-ok _ p99 c;
        most = or_raise-eq-ok _ _ d;
      })

  read_round-ok :
      (v : Value n) (i : ℤ)
      → read_round n is_finite v ≡ ok i
      → (v ≡ int i) × (ltb_ℤ i (pos 0) ≡ false)
  unfolding read_round
  read_round-ok (int j) i h = elim (Bool-cases (ltb_ℤ j (pos 0))) [
    | inl negative ↦ absurd (ok_or_err (sym (rw (negative, read_round) at h)))
    | inr fine ↦
        subst (λ k. (◌≡◌ {A = Value n} (int j) (int k)) × (ltb_ℤ k (pos 0) ≡ false))
          (ok-injective (rw (fine, read_round) at h)) (refl, fine)
  ]
  read_round-ok null i h = absurd (ok_or_err (sym h))
  read_round-ok (bool b) i h = absurd (ok_or_err (sym h))
  read_round-ok (real x) i h = absurd (ok_or_err (sym h))
  read_round-ok (text s) i h = absurd (ok_or_err (sym h))
  read_round-ok (arr xs) i h = absurd (ok_or_err (sym h))
  read_round-ok (obj fs) i h = absurd (ok_or_err (sym h))

  known_mode-ok :
      (case mode : Option String) (names : String × String)
      → known_mode n is_finite case mode ≡ ok names
      → (case ≡ some names.0) × (mode ≡ some names.1) × (is_mode names.1 ≡ true)
  unfolding known_mode
  known_mode-ok none mode names h = absurd (ok_or_err (sym h))
  known_mode-ok (some case) none names h = absurd (ok_or_err (sym h))
  known_mode-ok (some case) (some mode) names h = elim (Bool-cases (is_mode mode)) [
    | inl known ↦
        subst (λ p. (some case ≡ some p.0) × (some mode ≡ some p.1) × (is_mode p.1 ≡ true))
          (ok-injective (rw (known, known_mode) at h)) (refl, refl, known)
    | inr unknown ↦ absurd (ok_or_err (sym (rw (unknown, known_mode) at h)))
  ]

  -- What a row says of its run.
  pub record IsIdentified (row : Row n) (i : Identity) : Type 0 where
    pub known : is_mode i.mode ≡ true
    pub not_negative : ltb_ℤ i.round (pos 0) ≡ false
    pub case_of : find "case" row ≡ some (text i.case)
    pub mode_of : find "mode" row ≡ some (text i.mode)
    pub round_of : find "round" row ≡ some (int i.round)

  pub read_identity-IsIdentified :
      (row : Row n) (i : Identity) → read_identity n is_finite row ≡ ok i → IsIdentified row i
  unfolding read_identity read_case
  read_identity-IsIdentified row i h =
      let (case, a, h1) = >>=-eq-ok (run_key n is_finite "case" row) _ h in
      let (mode, b, h2) = >>=-eq-ok (run_key n is_finite "mode" row) _ h1 in
      let (round_value, c, h3) = >>=-eq-ok (run_key n is_finite "round" row) _ h2 in
      let (names, d, h4) = >>=-eq-ok (read_case n is_finite case mode) _ h3 in
      let (round, e, h5) = >>=-eq-ok (read_round n is_finite round_value) _ h4 in
      let (of_case, of_mode, known) = known_mode-ok _ _ names d in
      let (of_round, fine) = read_round-ok round_value round e in
      subst (IsIdentified row) (ok-injective h5) (record {
        known = known;
        not_negative = fine;
        case_of = run_key-ok "case" row case a ∙ ap some (as_text-some case names.0 of_case);
        mode_of = run_key-ok "mode" row mode b ∙ ap some (as_text-some mode names.1 of_mode);
        round_of = run_key-ok "round" row round_value c ∙ ap some of_round;
      })
