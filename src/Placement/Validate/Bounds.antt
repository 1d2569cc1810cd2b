-- ===== src/Placement/Validate/Bounds.antt =====
-- What the arguments that `validate` accepts satisfy.
use telar.Placement.ParseVariant.{parse_variant}
use telar.Placement.ParseVariant.Sound.{parse_variant-IsParsed}
use telar.Placement.{default_variants, UsageError, modes}
use telar.Placement.Power.Exact.{power_of_two_iff}
use telar.Placement.Validate.Names.{any-index, first_duplicate-Distinct, Distinct}
use telar.Prelude.Result.{ok-injective, >>=-eq-ok, guard-eq-ok}
use telar.Prelude.Int.{◌*ℤ◌, ◌≤ℤ◌}
use telar.Prelude.{
  of_not, [], refl, ltb, ◌∷◌, subst, none, get_elem?, true, some, All, ◌≤◌, arith, ◌^◌, ◌≡◌,
}
use telar.Placement.Validate.{
  first_duplicate, head_or, or_text, or_list, reject, parse_all, str_eq, max_walk_bytes, any,
  power_of_two, not, map, max_sample_ms, max_samples, length, ltb_ℤ, String, ok, bad_window, false,
  Variant, Option, given_and, outside, pos, List, ℕ, ℤ, Number, Unicode, check_numbers,
  check_variants, validate, Args, Settings,
}

module _ (uni : Unicode) (n : Number) where
  open n use {of_nat, le}

  -- The window is a power of two of at least four strides.
  abbrev FitsWindow : ℤ → Option ℤ → Type 0
  FitsWindow stride none = Unit
  FitsWindow stride (some window) = ((k : ℕ) × (window ≡ pos (2 ^ k))) × (pos 4 *ℤ stride ≤ℤ window)

  abbrev Within : ℕ → Option ℤ → Type 0
  Within limit none = Unit
  Within limit (some value) = (pos 1 ≤ℤ value) × (value ≤ℤ pos limit)

  pub record IsRunnable (variants : List Variant) (reference : String) (s : Settings n)
      : Type 0 where
    pub rounds : pos 1 ≤ℤ s.rounds
    pub samples : (pos 1 ≤ℤ s.samples) × (s.samples ≤ℤ pos 200)
    pub sample_ms : (pos 1 ≤ℤ s.sample_ms) × (s.sample_ms ≤ℤ pos 5000)
    pub stride : (k : ℕ) × (s.stride ≡ pos (2 ^ k))
    pub window : FitsWindow s.stride s.window
    pub walk : Within 1073741824 s.intervening_walk
    pub timeout : le s.timeout_s (of_nat 0) ≡ false
    pub enough : 2 ≤ length variants
    pub distinct : Distinct (map (λ (v : Variant). v.name) variants)
    pub each :
        All (λ (v : Variant). (any (str_eq v.mode) modes ≡ true) × (pos 1 ≤ℤ v.threshold)) variants
    pub reference_known :
        (i : ℕ) × (get_elem? (map (λ (v : Variant). v.name) variants) i ≡ some reference)

  record Numbers (a : Args n) : Type 0 where
    rounds : pos 1 ≤ℤ a.rounds
    samples : (pos 1 ≤ℤ a.samples) × (a.samples ≤ℤ pos 200)
    sample_ms : (pos 1 ≤ℤ a.sample_ms) × (a.sample_ms ≤ℤ pos 5000)
    threshold : pos 1 ≤ℤ a.threshold
    stride : (k : ℕ) × (a.stride ≡ pos (2 ^ k))
    window : FitsWindow a.stride a.window
    walk : Within 1073741824 a.intervening_walk
    timeout : le a.timeout (of_nat 0) ≡ false

  outside-false : (limit : ℕ) (v : ℤ) → outside limit v ≡ false → (pos 1 ≤ℤ v) × (v ≤ℤ pos limit)
  unfolding outside
  outside-false limit v h = ground arith

  window-false :
      (stride : ℤ) (o : Option ℤ) → given_and o (bad_window stride) ≡ false → FitsWindow stride o
  unfolding given_and bad_window
  window-false stride none h = tt
  window-false stride (some w) h = ((power_of_two_iff w).0 (ground arith), ground arith)

  walk-false : (limit : ℕ) (o : Option ℤ) → given_and o (outside limit) ≡ false → Within limit o
  unfolding given_and
  walk-false limit none h = tt
  walk-false limit (some v) h = outside-false limit v h

  check_numbers-Numbers : (a : Args n) → check_numbers uni n a ≡ ok tt → Numbers a
  unfolding check_numbers
  check_numbers-Numbers a h =
      let (rounds, h1) = guard-eq-ok (ltb_ℤ a.rounds (pos 1)) _ _ h in
      let (samples, h2) = guard-eq-ok (outside max_samples a.samples) _ _ h1 in
      let (sample_ms, h3) = guard-eq-ok (outside max_sample_ms a.sample_ms) _ _ h2 in
      let (threshold, h4) = guard-eq-ok (ltb_ℤ a.threshold (pos 1)) _ _ h3 in
      let (stride, h5) = guard-eq-ok (not (power_of_two a.stride)) _ _ h4 in
      let (window, h6) = guard-eq-ok (given_and a.window (bad_window a.stride)) _ _ h5 in
      let (walk, h7) = guard-eq-ok (given_and a.intervening_walk (outside max_walk_bytes)) _ _ h6 in
      let (timeout, h8) = guard-eq-ok (le a.timeout (of_nat 0)) _ _ h7 in
      record {
        rounds = ground arith;
        samples = outside-false max_samples a.samples samples;
        sample_ms = outside-false max_sample_ms a.sample_ms sample_ms;
        threshold = ground arith;
        stride = (power_of_two_iff a.stride).0 (of_not _ stride);
        window = window-false a.stride a.window window;
        walk = walk-false max_walk_bytes a.intervening_walk walk;
        timeout = timeout;
      }

  parse_all-valid :
      (default : ℤ) (texts : List String) (variants : List Variant)
      → pos 1 ≤ℤ default
      → parse_all uni default texts ≡ ok variants
      → All (λ (v : Variant). (any (str_eq v.mode) modes ≡ true) × (pos 1 ≤ℤ v.threshold)) variants
  unfolding parse_all
  parse_all-valid default [] variants low h =
      subst (All (λ (v : Variant). (any (str_eq v.mode) modes ≡ true) × (pos 1 ≤ℤ v.threshold)))
        (ok-injective h) tt
  parse_all-valid default (text ∷ texts) variants low h =
      let (v, parsed, h1) = >>=-eq-ok (parse_variant uni text default) _ h in
      let (vs, rest, made) = >>=-eq-ok (parse_all uni default texts) _ h1 in
      let p = parse_variant-IsParsed uni text default v low parsed in
      subst (All (λ (w : Variant). (any (str_eq w.mode) modes ≡ true) × (pos 1 ≤ℤ w.threshold)))
        (ok-injective made) ((p.known, p.positive), parse_all-valid default texts vs low rest)

  reject-eq-ok :
      {A : Type 0} (o : Option A) (f : A → UsageError) {u : Unit {0}} → reject o f ≡ ok u → o ≡ none
  unfolding reject
  reject-eq-ok none f h = refl
  reject-eq-ok (some a) f h = cc

  record Chosen (variants : List Variant) (reference : String) : Type 0 where
    enough : 2 ≤ length variants
    distinct : Distinct (map (λ (v : Variant). v.name) variants)
    each :
        All (λ (v : Variant). (any (str_eq v.mode) modes ≡ true) × (pos 1 ≤ℤ v.threshold)) variants
    reference_known :
        (i : ℕ) × (get_elem? (map (λ (v : Variant). v.name) variants) i ≡ some reference)

  check_variants-Chosen :
      (a : Args n) (r : List Variant × String)
      → pos 1 ≤ℤ a.threshold
      → check_variants uni n a ≡ ok r
      → Chosen r.0 r.1
  unfolding check_variants
  check_variants-Chosen a r low h =
      let (vs, parsed, h1) =
        >>=-eq-ok (parse_all uni a.threshold (or_list a.variant default_variants)) _ h in
      let names : List String = map (λ (v : Variant). v.name) vs in
      let reference : String = or_text a.reference (head_or "" names) in
      let (u, unique, h2) =
        >>=-eq-ok (reject (first_duplicate names names) UsageError.duplicate_name) _ h1 in
      let (enough, h3) = guard-eq-ok (ltb (length vs) 2) _ _ h2 in
      let (known, h4) = guard-eq-ok (not (any (str_eq reference) names)) _ _ h3 in
      let chosen : Chosen vs reference = record {
        enough = ground arith;
        distinct = first_duplicate-Distinct names (reject-eq-ok _ _ unique);
        each = parse_all-valid a.threshold _ vs low parsed;
        reference_known = any-index reference names (of_not _ known);
      } in
      subst (λ (p : List Variant × String). Chosen p.0 p.1) (ok-injective h4) chosen

  -- Whatever the arguments, a configuration that `validate` accepts is within the benchmark's own
  -- bounds: at least one round, 1 to 200 samples of 1 to 5000 ms, a stride that is a power of two, a
  -- window, if given, that is a power of two of at least four strides, a walk, if given, of 1 byte to
  -- 1 GiB, a timeout that is not at most zero, at least two variants with distinct names, known modes
  -- and thresholds of at least one byte, and a reference that is one of them.
  pub validate-IsRunnable :
      (a : Args n) (variants : List Variant) (reference : String) (s : Settings n)
      → validate uni n a ≡ ok (variants, reference, s)
      → IsRunnable variants reference s
  unfolding validate
  validate-IsRunnable a variants reference s h =
      let (u, numbers, h1) = >>=-eq-ok (check_numbers uni n a) _ h in
      let ((vs, r), chosen, made) = >>=-eq-ok (check_variants uni n a) _ h1 in
      let k = check_numbers-Numbers a numbers in
      let c = check_variants-Chosen a (vs, r) k.threshold chosen in
      subst (λ (t : List Variant × String × Settings n). IsRunnable t.0 t.1 t.2) (ok-injective made)
        (record {
          rounds = k.rounds;
          samples = k.samples;
          sample_ms = k.sample_ms;
          stride = k.stride;
          window = k.window;
          walk = k.walk;
          timeout = k.timeout;
          enough = c.enough;
          distinct = c.distinct;
          each = c.each;
          reference_known = c.reference_known;
        })
