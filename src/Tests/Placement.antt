-- ===== src/Tests/Placement.antt =====
-- Runs of tools/placement_bench.py.
use telar.Placement.Order.Positions.{ordered-position, index_at}
use telar.Placement.Paired.Counts.{paired-AddsUp, Rows}
use telar.Placement.ParseVariant.Sound.{parse_variant-IsParsed, IsParsed}
use telar.Placement.Paired.{paired, Summary, Dict}
use telar.Placement.Power.{power_of_two}
use telar.Placement.Order.{ordered}
use telar.Placement.ParseVariant.{parse_variant}
use telar.Prelude.{
  ◌^◌, arith, ◌↔◌, Option, true, ◌%◌, get_elem?, none, some, [], ◌∷◌, refl, List, String, ◌≡◌, ℕ,
}
use telar.Prelude.Int.{ℤ, pos, negsuc}
use telar.Placement.{Variant, default_variants}
use telar.Placement.Validate.{Args, Settings, filter_name, validate}
use telar.Placement.Validate.Bounds.{IsRunnable, validate-IsRunnable}
use telar.Tests.Sample.{whole, whole-IsOrdered, ascii}

abbrev pub arguments : Args whole
arguments = record {
  rounds = pos 9;
  samples = pos 12;
  sample_ms = pos 40;
  backing = "libc";
  threshold = pos 32768;
  stride = pos 512;
  window = some (pos 16384);
  variant = "near=baseline" ∷ "far=pack:4096" ∷ [];
  reference = none;
  intervening_walk = some (pos 1000);
  timeout = pos 300;
  jobs = none;
  zig_build_arg = [];
  binary = none;
}

abbrev pub settings : Settings whole
settings = record {
  rounds = pos 9;
  samples = pos 12;
  sample_ms = pos 40;
  backing = "libc";
  threshold = pos 32768;
  stride = pos 512;
  window = some (pos 16384);
  intervening_walk = some (pos 1000);
  timeout_s = pos 300;
  filter_text = filter_name;
}

abbrev pub near : Variant
near = record { name = "near"; mode = "baseline"; threshold = pos 32768 }

abbrev pub far : Variant
far = record { name = "far"; mode = "pack"; threshold = pos 4096 }

validate-IsRunnable_example : IsRunnable ascii whole (near ∷ far ∷ []) "near" settings
unfolding validate telar.Placement.Power.power_of_two telar.Prelude.Int.◌*ℤ◌
    telar.Placement.ParseVariant.parse_variant telar.Text.partition telar.Text.isalnum
    telar.Text.parse_int
validate-IsRunnable_example =
    validate-IsRunnable ascii whole arguments (near ∷ far ∷ []) "near" settings refl

parse_variant-IsParsed_example : IsParsed ascii "far=pack:4096" (pos 32768) far
unfolding parse_variant telar.Text.partition telar.Text.isalnum telar.Text.parse_int
parse_variant-IsParsed_example =
    parse_variant-IsParsed ascii "far=pack:4096" (pos 32768) far (omega arith) refl

ordered-position_example :
    get_elem? {A = ℕ} (3 ∷ 2 ∷ 1 ∷ 4 ∷ []) 1
    ≡ get_elem? {A = ℕ} (1 ∷ 2 ∷ 3 ∷ 4 ∷ []) (index_at 4 3 1)
unfolding ordered
ordered-position_example =
    ordered-position (1 ∷ 2 ∷ 3 ∷ 4 ∷ []) (3 ∷ 2 ∷ 1 ∷ 4 ∷ []) 3 1 (omega arith) refl

-- Three rounds; the second run of `far` does not count.
abbrev series : Dict (List (Option ℤ))
series =
    ("near", some (pos 100) ∷ some (pos 200) ∷ some (pos 300) ∷ [])
    ∷ ("far", some (pos 300) ∷ none ∷ some (pos 200) ∷ [])
    ∷ []

abbrev near_summary : Summary whole
near_summary = record {
  runs = 3;
  runs_not_counted = 0;
  median_value = some (pos 200);
  least_value = some (pos 100);
  greatest_value = some (pos 300);
  pairs = 3;
  median_paired_change_pct = some (pos 0);
  min_paired_change_pct = some (pos 0);
  max_paired_change_pct = some (pos 0);
  wins = 0;
  losses = 0;
  ties = 3;
}

abbrev far_summary : Summary whole
far_summary = record {
  runs = 2;
  runs_not_counted = 1;
  median_value = some (pos 250);
  least_value = some (pos 200);
  greatest_value = some (pos 300);
  pairs = 2;
  median_paired_change_pct = some (pos 50);
  min_paired_change_pct = some (negsuc 99);
  max_paired_change_pct = some (pos 200);
  wins = 1;
  losses = 1;
  ties = 0;
}

paired-AddsUp_example :
    Rows whole whole-IsOrdered series (("near", near_summary) ∷ ("far", far_summary) ∷ [])
unfolding paired telar.Statistics.median telar.Statistics.minimum telar.Statistics.maximum
    telar.Prelude.Int.◌*ℤ◌ telar.Prelude.Int.◌+ℤ◌ telar.Prelude.Int.◌-ℤ◌
paired-AddsUp_example =
    paired-AddsUp whole whole-IsOrdered series "near"
      (("near", near_summary) ∷ ("far", far_summary) ∷ []) refl
