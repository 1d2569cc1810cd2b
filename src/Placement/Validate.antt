-- ===== src/Placement/Validate.antt =====
-- `validate`: the checks on the arguments of `run`, in the order of the source.
pub mod Bounds
pub mod Names
use telar.Prelude.{
  ℕ, String, Bool, true, false, not, ◌&&◌, ◌||◌, Option, none, some, List, [], ◌∷◌, map, any,
  count_if, length, str_eq, ltb, if◌then◌else◌,
}
use telar.Prelude.Int.{ℤ, pos, ltb_ℤ, leb_ℤ, ◌*ℤ◌}
use telar.Prelude.Result.{Result, ok, err, raise_if, or_raise, ◌>>=◌, ◌>>◌}
use telar.Text.{Unicode, is_empty}
use telar.Number.{Number}
use telar.Placement.{
  Variant, UsageError, modes, default_variants, max_samples, max_sample_ms, max_walk_bytes,
}
use telar.Placement.Power.{power_of_two}
use telar.Placement.ParseVariant.{parse_variant}

abbrev pub filter_name : String
filter_name = "backend.delivery.flush_idle"

module _ (n : Number) where
  open n use {Num}

  -- What `argparse` hands over. An option that is not given is `none`, or the empty list.
  pub record Args : Type 0 where
    pub rounds : ℤ
    pub samples : ℤ
    pub sample_ms : ℤ
    pub backing : String
    pub threshold : ℤ
    pub stride : ℤ
    pub window : Option ℤ
    pub variant : List String
    pub reference : Option String
    pub intervening_walk : Option ℤ
    pub timeout : Num
    pub jobs : Option ℤ
    pub zig_build_arg : List String
    pub binary : Option String

  pub record Settings : Type 0 where
    pub rounds : ℤ
    pub samples : ℤ
    pub sample_ms : ℤ
    pub backing : String
    pub threshold : ℤ
    pub stride : ℤ
    pub window : Option ℤ
    pub intervening_walk : Option ℤ
    pub timeout_s : Num
    pub filter_text : String

-- `not 1 <= value <= limit`
outside : ℕ → ℤ → Bool
outside limit value = not (leb_ℤ (pos 1) value && leb_ℤ value (pos limit))

-- `value is not None and test(value)`
given_and : Option ℤ → (ℤ → Bool) → Bool
given_and none test = false
given_and (some value) test = test value

is_given : {A : Type 0} → Option A → Bool
is_given none = false
is_given (some a) = true

non_empty : {A : Type 0} → List A → Bool
non_empty [] = false
non_empty (x ∷ xs) = true

bad_window : ℤ → ℤ → Bool
bad_window stride window = not (power_of_two window) || ltb_ℤ window (pos 4 *ℤ stride)

-- `a or b` for lists and for texts
or_list : List String → List String → List String
or_list [] b = b
or_list (x ∷ xs) b = x ∷ xs

or_text : Option String → String → String
or_text none b = b
or_text (some a) b = if is_empty a then b else a

parse_all : Unicode → ℤ → List String → Result UsageError (List Variant)
parse_all uni default [] = ok []
parse_all uni default (text ∷ texts) = do
  variant ← parse_variant uni text default
  variants ← parse_all uni default texts
  ok (variant ∷ variants)

-- The first of `rest` that `names` holds more than once.
pub first_duplicate : List String → List String → Option String
first_duplicate names [] = none
first_duplicate names (name ∷ rest) =
    let later = first_duplicate names rest in
    if ltb 1 (count_if (str_eq name) names) then some name else later

reject : {A : Type 0} → Option A → (A → UsageError) → Result UsageError (Unit {0})
reject none f = ok tt
reject (some a) f = err (f a)

head_or : String → List String → String
head_or d [] = d
head_or d (x ∷ xs) = x

module _ (uni : Unicode) (n : Number) where
  open n use {of_nat, le}

  check_numbers : Args n → Result UsageError (Unit {0})
  unfolding outside given_and is_given non_empty bad_window
  check_numbers args = do
    raise_if (ltb_ℤ args.rounds (pos 1)) UsageError.bad_rounds
    raise_if (outside max_samples args.samples) UsageError.bad_samples
    raise_if (outside max_sample_ms args.sample_ms) UsageError.bad_sample_ms
    raise_if (ltb_ℤ args.threshold (pos 1)) UsageError.bad_threshold
    raise_if (not (power_of_two args.stride)) UsageError.bad_stride
    raise_if (given_and args.window (bad_window args.stride)) UsageError.bad_window
    raise_if (given_and args.intervening_walk (outside max_walk_bytes)) UsageError.bad_walk
    raise_if (le args.timeout (of_nat 0)) UsageError.bad_timeout
    raise_if (given_and args.jobs (λ jobs. ltb_ℤ jobs (pos 1))) UsageError.bad_jobs
    raise_if (is_given args.binary && (is_given args.jobs || non_empty args.zig_build_arg))
        UsageError.build_with_binary

  check_variants : Args n → Result UsageError (List Variant × String)
  unfolding or_list or_text parse_all first_duplicate reject head_or
  check_variants args = do
    variants ← parse_all uni args.threshold (or_list args.variant default_variants)
    let names = map (λ (v : Variant). v.name) variants
    reject (first_duplicate names names) UsageError.duplicate_name
    raise_if (ltb (length variants) 2) UsageError.too_few_variants
    let reference = or_text args.reference (head_or "" names)
    raise_if (not (any (str_eq reference) names)) (UsageError.unknown_reference reference)
    ok (variants, reference)

  settings_of : Args n → Settings n
  settings_of args = record {
    rounds = args.rounds;
    samples = args.samples;
    sample_ms = args.sample_ms;
    backing = args.backing;
    threshold = args.threshold;
    stride = args.stride;
    window = args.window;
    intervening_walk = args.intervening_walk;
    timeout_s = args.timeout;
    filter_text = filter_name;
  }

  unfoldable pub validate : Args n → Result UsageError (List Variant × String × Settings n)
  unfolding check_numbers check_variants settings_of
  validate args = do
    check_numbers args
    (variants, reference) ← check_variants args
    ok (variants, reference, settings_of args)
