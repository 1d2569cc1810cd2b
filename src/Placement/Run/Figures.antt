-- ===== src/Placement/Run/Figures.antt =====
-- The allocations and the intervening walk of one case.
use telar.Prelude.{String, Option, none, some, List, [], ◌∷◌, length, if◌then◌else◌}
use telar.Prelude.Int.{◌-ℤ◌, ℤ, pos, ltb_ℤ}
use telar.Prelude.Result.{Result, ok, err, Exception, type_error, key_error, or_raise, ◌>>=◌}
use telar.Number.{Number}
use mathlib.Core.Option
use telar.Json.{Json, int, Value, Row, find, get, py_sum, as_number, int_of_bool}
use telar.Placement.Run.{Problem, Walk}
use telar.Placement.Run.Rows.{pick, single, differs}

module _ (n : Number) where
  open n use {Num, of_nat, of_int, sub, div}

  unfoldable pub length_sum : Option (Value n) → Result Exception (Value n)
  length_sum none = ok (int (pos 0))
  length_sum (some v) = py_sum n v

  unfoldable pub read_allocations :
      List (Row n) → Result Exception (Option (Value n × Value n) × List (Problem n))
  unfolding length_sum single
  read_allocations rows = elim (single n rows) [
    | none ↦ ok (none, Problem.expected_one "placement_allocations" (length rows) ∷ [])
    | some row ↦ do
      bytes ← length_sum (find "len_bytes" row)
      ok (some (get "count" row, bytes), [])
  ]

  -- An `int`, a Boolean among them.
  unfoldable pub whole : Value n → Option ℤ
  whole (Json.bool b) = some (int_of_bool b)
  whole (Json.int i) = some i
  whole _ = none

  -- `a - b` of numbers
  unfoldable pub minus : Value n → Value n → Option (Value n)
  unfolding whole
  minus a b = elim (whole a) [
    | some i ↦ elim (whole b) [
      | some j ↦ some (int (i -ℤ j))
      | none ↦ Option.map (λ y. Json.real (sub (of_int i) y)) (as_number n b)
    ]
    | none ↦ elim (as_number n a) [
      | none ↦ none
      | some x ↦ Option.map (λ y. Json.real (sub x y)) (as_number n b)
    ]
  ]

  -- `a / flushes`
  unfoldable pub per_flush : ℤ → Option (Value n) → Result Exception (Value n)
  per_flush flushes none = err type_error
  per_flush flushes (some a) = do
    x ← or_raise (as_number n a) type_error
    ok (Json.real (div x (of_int flushes)))

  abbrev pub walk_keys : List String
  walk_keys = "walk_bytes" ∷ "walk_stride_bytes" ∷ "flushes" ∷ "flush_ns" ∷ "empty_clock_ns" ∷ []

  unfoldable pub bare_walk : Row n → Walk n
  unfolding pick
  bare_walk row = record {
    reported = pick n walk_keys row;
    flush_ns_per_flush = none;
    empty_clock_ns_per_flush = none;
    flush_minus_clock_ns_per_flush = none;
  }

  unfoldable pub timed_walk : Row n → ℤ → Result Exception (Walk n)
  unfolding bare_walk per_flush minus
  timed_walk row flushes = do
    flush_ns ← or_raise (find "flush_ns" row) key_error
    flush ← per_flush flushes (some flush_ns)
    empty_ns ← or_raise (find "empty_clock_ns" row) key_error
    empty ← per_flush flushes (some empty_ns)
    difference ← per_flush flushes (minus flush_ns empty_ns)
    ok (record (bare_walk row) {
      flush_ns_per_flush = some flush;
      empty_clock_ns_per_flush = some empty;
      flush_minus_clock_ns_per_flush = some difference;
    })

  -- The walk of a case, where one was asked for.
  unfoldable pub read_walk :
      Option ℤ → Option (Row n) → Result Exception (Option (Walk n) × List (Problem n))
  unfolding bare_walk timed_walk whole differs
  read_walk none row = ok (none, [])
  read_walk (some bytes) none = ok (none, [])
  read_walk (some bytes) (some row) = elim (whole (get "flushes" row)) [
    | none ↦ ok (some (bare_walk row), Problem.timed_no_flush ∷ [])
    | some flushes ↦
        if ltb_ℤ flushes (pos 1)
        then ok (some (bare_walk row), Problem.timed_no_flush ∷ [])
        else if differs n (get "walk_bytes" row) (int bytes)
        then ok (some (bare_walk row), Problem.walked (get "walk_bytes" row) bytes ∷ [])
        else (do walk ← timed_walk row flushes; ok (some walk, []))
  ]
