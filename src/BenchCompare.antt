-- ===== src/BenchCompare.antt =====
-- tools/bench_compare.py: one benchmark run against another. Its `load` is that of Benchmarks.
pub mod Status
use telar.Prelude.{
  ℕ, String, Bool, true, false, not, ◌&&◌, ◌||◌, Option, none, some, List, [], ◌∷◌, any,
  if◌then◌else◌,
}
use telar.Prelude.Int.{ℤ, pos, sub_ℕ, eq_ℤ}
use telar.Prelude.Result.{
  Result, ok, err, Exception, key_error, type_error, value_error, overflow_error, os_failure,
  or_raise, raise_if, ◌>>=◌, ◌>>◌,
}
use telar.Number.{Number}
use telar.Text.{Unicode, codes, parse_int}
use telar.Json.{Value, Row, bool, int, real, text, find, get, py_eq, int_of_bool}
use telar.Placement.Run.{Line}
use telar.Benchmarks.{Loaded, load, find_case, same_keys}

abbrev pub compared_fields : List String
compared_fields =
    "zig" ∷ "mode" ∷ "arch" ∷ "cpu" ∷ "os" ∷ "cols" ∷ "rows" ∷ "samples" ∷ "sample_target_ns" ∷ []

module _ (uni : Unicode) (n : Number) where
  open n use {Num, of_nat, of_int, sub, mul, div, lt, eq, is_finite, trunc}

  -- A percentage that is not given is `none`.
  pub record Limits : Type 0 where
    pub fail_above : Option Num
    pub fail_payload_above : Option Num

  abbrev trunc_ℤ : Num → ℤ
  trunc_ℤ x = if lt x (of_nat 0) then sub_ℕ 0 (trunc (sub (of_nat 0) x)) else pos (trunc x)

  -- `int` of a float, which NaN and the infinities do not have
  abbrev float_to_int : Num → Result Exception ℤ
  float_to_int x =
      if is_finite x then ok (trunc_ℤ x) else if eq x x then err overflow_error else err value_error

  -- `int(value)`
  unfoldable pub to_int : Value n → Result Exception ℤ
  to_int (bool b) = ok (int_of_bool b)
  to_int (int i) = ok i
  to_int (real x) = float_to_int x
  to_int (text s) = or_raise (parse_int uni (codes s)) value_error
  to_int _ = err type_error

  abbrev int_or_zero : Option (Value n) → Result Exception ℤ
  int_or_zero none = ok (pos 0)
  int_or_zero (some v) = to_int v

  pub record Measured : Type 0 where
    pub old_ns : ℤ
    pub new_ns : ℤ
    pub old_bytes : ℤ
    pub new_bytes : ℤ

  unfoldable pub measure : Value n → Row n → Loaded n → Result Exception Measured
  unfolding to_int
  measure name old candidate = do
    old_value ← or_raise (find "median_ns_per_op" old) key_error
    old_ns ← to_int old_value
    new ← or_raise (find_case n name candidate.cases) key_error
    new_value ← or_raise (find "median_ns_per_op" new) key_error
    new_ns ← to_int new_value
    old_bytes ← int_or_zero (find "payload_bytes_per_op" old)
    new_bytes ← int_or_zero (find "payload_bytes_per_op" new)
    ok (record { old_ns = old_ns; new_ns = new_ns; old_bytes = old_bytes; new_bytes = new_bytes })

  -- `(new / old - 1.0) * 100.0`
  abbrev pub growth : ℤ → ℤ → Num
  growth old new = mul (sub (div (of_int new) (of_int old)) (of_nat 1)) (of_nat 100)

  abbrev pub above : Option Num → Num → Bool
  above none change = false
  above (some limit) change = lt limit change

  -- The median grew by more than the limit.
  abbrev pub is_slower : Limits → Measured → Bool
  is_slower limits m =
      above limits.fail_above (if eq_ℤ m.old_ns (pos 0) then of_nat 0 else growth m.old_ns m.new_ns)

  -- The payload grew by more than the limit; one that was empty may grow.
  abbrev pub is_bigger : Limits → Measured → Bool
  is_bigger limits m =
      not (eq_ℤ m.old_bytes (pos 0))
      && above limits.fail_payload_above (growth m.old_bytes m.new_bytes)

  unfoldable pub any_regressed : Limits → Loaded n → List (Value n × Row n) → Result Exception Bool
  unfolding measure
  any_regressed limits candidate [] = ok false
  any_regressed limits candidate ((name, old) ∷ cases) = do
    m ← measure name old candidate
    rest ← any_regressed limits candidate cases
    ok (is_slower limits m || is_bigger limits m || rest)

  abbrev pub differ : Loaded n → Loaded n → Bool
  differ baseline candidate =
      any (λ field. not (py_eq n (get field baseline.metadata) (get field candidate.metadata)))
        compared_fields

  -- Both files, of the same metadata. A file that does not open is `none`.
  unfoldable pub read_both :
      Option (List (Line n)) → Option (List (Line n)) → Result Exception (Loaded n × Loaded n)
  read_both baseline candidate = do
    old_lines ← or_raise baseline os_failure
    old ← load n old_lines
    new_lines ← or_raise candidate os_failure
    new ← load n new_lines
    raise_if (differ old new) value_error
    ok (old, new)

  abbrev pub reports : Exception → Bool
  reports os_failure = true
  reports key_error = true
  reports type_error = true
  reports value_error = true
  reports _ = false

  unfoldable pub compare_runs : Limits → Loaded n → Loaded n → Result Exception ℕ
  unfolding any_regressed
  compare_runs limits old new =
      if not (same_keys n old.cases new.cases)
      then ok 2
      else (do regressed ← any_regressed limits new old.cases; ok (if regressed then 1 else 0))

  -- The exit status. The names of the cases are texts, so that those that differ can be sorted.
  unfoldable pub exit_status :
      Limits → Option (List (Line n)) → Option (List (Line n)) → Result Exception ℕ
  unfolding read_both compare_runs
  exit_status limits baseline candidate = elim (read_both baseline candidate) [
    | err raised ↦ if reports raised then ok 2 else err raised
    | ok both ↦ compare_runs limits both.0 both.1
  ]
