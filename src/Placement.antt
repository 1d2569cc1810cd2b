-- ===== src/Placement.antt =====
-- tools/placement_bench.py: the paired comparison of record placements.
pub mod ParseVariant
pub mod Order
pub mod Power
pub mod Paired
pub mod Validate
pub mod Run
pub mod Session
pub mod Derive
pub mod Finish
use telar.Prelude.{ℕ, String, List, [], ◌∷◌}
use telar.Prelude.Int.{ℤ}

-- `class Variant`
pub record Variant : Type 0 where
  pub name : String
  pub mode : String
  pub threshold : ℤ

-- `class UsageError`: one constructor for each message.
pub data UsageError : Type 0 where
  variant_form : String → UsageError
  variant_name : String → UsageError
  unknown_mode : String → String → UsageError
  threshold_text : String → String → UsageError
  threshold_low : String → UsageError
  bad_rounds bad_samples bad_sample_ms bad_threshold bad_stride bad_window bad_walk : UsageError
  bad_timeout bad_jobs build_with_binary : UsageError
  duplicate_name : String → UsageError
  too_few_variants : UsageError
  unknown_reference : String → UsageError
  output_exists binary_not_executable build_failed : UsageError

abbrev pub modes : List String
modes = "baseline" ∷ "shift" ∷ "stagger" ∷ "pack" ∷ []

abbrev pub default_variants : List String
default_variants = "baseline=baseline" ∷ "shift=shift" ∷ "stagger=stagger" ∷ "pack=pack" ∷ []

abbrev pub max_samples : ℕ
max_samples = 200

abbrev pub max_sample_ms : ℕ
max_sample_ms = 5000

abbrev pub max_walk_bytes : ℕ
max_walk_bytes = 1073741824
