-- ===== src/Placement/Run.antt =====
-- `parse_run` and `parse_case`: what one run's JSON Lines report, and why it does not count.
-- A line of the output enters as what `strip` and `json.loads` make of it.
pub mod Rows
pub mod Checks
pub mod RecordRows
pub mod Figures
pub mod OneCase
pub mod Output
pub mod Silent
pub mod Counts
pub mod Whole
use telar.Prelude.{
  ℕ, zero, suc, ◌+◌, String, Bool, true, false, not, ◌&&◌, ◌||◌, Option, none, some, List, [], ◌∷◌,
  ◌++◌, map, any, count_if, select, length, str_eq, ◌==◌, if◌then◌else◌,
}
use telar.Prelude.Int.{◌-ℤ◌, ℤ, pos, ltb_ℤ}
use telar.Prelude.Result.{
  Result, ok, err, Exception, type_error, key_error, raise_if, or_raise, ◌>>=◌, ◌>>◌,
}
use telar.Number.{Number}
use mathlib.Core.Option
use telar.Json
use telar.Json.{
  Json, Fields, null, int, text, obj, Value, Row, find, get, or_null, is_int, is_true, is_hashable,
  or_zero, py_eq, py_mul, py_sum, count_trues, as_number, truthy, int_of_bool,
}
use telar.Placement.{Variant}
use telar.Placement.Validate.{Settings}

abbrev pub benchmark_fields : List String
benchmark_fields =
    "iterations" ∷ "samples" ∷ "median_ns_per_op" ∷ "min_ns_per_op" ∷ "p95_ns_per_op"
    ∷ "p99_ns_per_op" ∷ []

abbrev pub metadata_fields : List String
metadata_fields =
    "zig" ∷ "mode" ∷ "arch" ∷ "cpu" ∷ "os" ∷ "cols" ∷ "rows" ∷ "samples" ∷ "sample_target_ns" ∷ []

abbrev pub shape_fields : List String
shape_fields = "clients" ∷ "panes" ∷ "cols" ∷ "rows" ∷ []

abbrev pub record_kinds : List String
record_kinds = "runtime" ∷ "session" ∷ "pane" ∷ "attachment" ∷ []

module _ (n : Number) where
  open n use {Num, of_nat, of_int, sub, div}

  pub data Line : Type 0 where
    blank : Line
    not_json : Line
    value : Value n → Line

  -- One constructor for each message.
  pub data Problem : Type 0 where
    line_not_json : ℕ → Problem
    line_not_object : ℕ → Problem
    expected_one : String → ℕ → Problem
    policy_differs : String → Value n → Problem
    no_layout : Problem
    reported_times : Value n → ℕ → Problem
    of_case : Value n → Problem → Problem
    no_benchmark : Problem
    not_whole : String → Problem
    refused_in_setup : Value n → Problem
    not_idle : Value n → Value n → Problem
    never_freed : Value n → Problem
    refused_allocations : Value n → Problem
    record_count : String → Value n → Value n → Problem
    timed_no_flush : Problem
    walked : Value n → ℤ → Problem
    could_not_start : Problem
    timed_out : Problem
    exited : ℤ → Option String → Problem

  pub record Records : Type 0 where
    pub count : Value n
    pub controlled : ℕ
    pub page_offset_bytes : Value n
    pub window_offset_bytes : Value n

  pub record Walk : Type 0 where
    pub reported : List (String × Value n)
    pub flush_ns_per_flush : Option (Value n)
    pub empty_clock_ns_per_flush : Option (Value n)
    pub flush_minus_clock_ns_per_flush : Option (Value n)

  pub record Case : Type 0 where
    pub benchmark : List (String × Value n)
    pub shape : Option (List (String × Value n))
    pub placement : List (String × Value n)
    pub records : List (Value n × Records)
    pub allocations : Option (Value n × Value n)
    pub walk : Option Walk

  pub record Parsed : Type 0 where
    pub metadata : Option (List (String × Value n))
    pub policy : Option (Row n)
    pub layout : List (Row n)
    pub shape_selected : List (Value n × Value n)
    pub cases : List (Value n × Case)
