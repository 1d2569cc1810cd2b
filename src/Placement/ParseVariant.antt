-- ===== src/Placement/ParseVariant.antt =====
-- `parse_variant`: NAME=MODE or NAME=MODE:THRESHOLD_BYTES.
pub mod Sound
use telar.Prelude.{
  ℕ, String, Bool, true, false, not, ◌&&◌, ◌||◌, Option, none, some, List, any, select, str_eq,
  ◌==◌, if◌then◌else◌,
}
use telar.Prelude.Int.{ℤ, pos, ltb_ℤ}
use telar.Prelude.Result.{Result, ok, err, raise_if, or_raise, ◌>>=◌, ◌>>◌}
use telar.Text.{Unicode, codes, is_empty, partition, isalnum, parse_int}
use telar.Placement.{Variant, UsageError, modes}

module _ (uni : Unicode) where
  -- `name.replace("_", "").replace("-", "").isalnum()`
  pub is_name : String → Bool
  is_name name = isalnum uni (select (λ c. not (c == b'_') && not (c == b'-')) (codes name))

  -- The threshold behind the colon, or the default without one.
  read_threshold : String → ℤ → Bool → String → Result UsageError ℤ
  read_threshold text default separator threshold_text =
      if separator
      then (do
        threshold ←
            or_raise (parse_int uni (codes threshold_text))
              (UsageError.threshold_text text threshold_text)
        raise_if (ltb_ℤ threshold (pos 1)) (UsageError.threshold_low text)
        ok threshold)
      else ok default

  unfoldable pub parse_variant : String → ℤ → Result UsageError Variant
  unfolding is_name read_threshold
  parse_variant text default_threshold = do
    let (name, separator, rest) = partition b'=' text
    raise_if (not separator || is_empty name || is_empty rest) (UsageError.variant_form text)
    raise_if (not (is_name name)) (UsageError.variant_name text)
    let (mode, colon, threshold_text) = partition b':' rest
    raise_if (not (any (str_eq mode) modes)) (UsageError.unknown_mode text mode)
    threshold ← read_threshold text default_threshold colon threshold_text
    ok (record { name = name; mode = mode; threshold = threshold })
