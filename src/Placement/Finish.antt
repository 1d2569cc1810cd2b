-- ===== src/Placement/Finish.antt =====
-- The end of `command_run` and `main`: whether the runs agree, what is saved, and the exit status.
pub mod Agreement
pub mod Status
use telar.Placement.Run.{Case}
use telar.Placement.Validate.{Args, filter_name, validate, Settings}
use telar.Text.{Unicode}
use telar.Placement.Derive.{Tables, derive, all_case_names}
use telar.Json.{py_eq, Row, Value}
use telar.Placement.{build_failed, binary_not_executable, output_exists, UsageError, Variant}
use telar.Number.{Number}
use telar.Text.Format.{concat, decimal}
use telar.Prelude.{
  ◌+◌, ℕ, zero, String, Bool, true, false, not, ◌&&◌, ◌||◌, Option, none, some, List, [], ◌∷◌, ◌++◌,
  map, select, any, somes, str_eq, if◌then◌else◌,
}
use telar.Prelude.Int.{negsuc, ℤ, pos, pos_part}
use telar.Prelude.Result.{
  Result, ok, err, Exception, key_error, type_error, index_error, ◌>>=◌, raise_if,
}
use telar.Placement.Session.{none_left, Entry, Results, run_rounds, no_results, Report}

-- `clean_environment`
abbrev pub clean_environment : String → List (String × String)
clean_environment home = ("PATH", "/usr/bin:/bin") ∷ ("HOME", home) ∷ ("LANG", "C") ∷ []

-- `str(i)`
unfoldable pub show_int : ℤ → String
unfolding decimal
show_int (pos k) = decimal k
show_int (negsuc k) = concat ("-" ∷ decimal (k + 1) ∷ [])

-- What `consistency` reports.
pub data Inconsistency (V : Type 0) : Type 0 where
  metadata_differs layout_differs cases_differ : Inconsistency V
  shape_differs : V → Inconsistency V

-- Whether a set of digests has more than one element.
unfoldable pub differs : List String → Bool
differs [] = false
differs (d ∷ ds) = any (λ e. not (str_eq e d)) ds

module _ (n : Number) where
  optional_argument : String → Option ℤ → List String
  unfolding show_int
  optional_argument flag none = []
  optional_argument flag (some value) = flag ∷ show_int value ∷ []

  unfoldable pub variant_argv : String → Variant → Settings n → List String
  unfolding optional_argument show_int
  variant_argv binary variant settings =
      (binary
        ∷ "--filter"
        ∷ filter_name
        ∷ "--json"
        ∷ "--samples"
        ∷ show_int settings.samples
        ∷ "--sample-ms"
        ∷ show_int settings.sample_ms
        ∷ "--placement"
        ∷ variant.mode
        ∷ "--placement-backing"
        ∷ settings.backing
        ∷ "--placement-threshold"
        ∷ show_int variant.threshold
        ∷ "--placement-stride"
        ∷ show_int settings.stride
        ∷ "--placement-report"
        ∷ [])
      ++ optional_argument "--placement-window" settings.window
      ++ optional_argument "--intervening-walk" settings.intervening_walk

  -- `digest` of the parts that are compared: the SHA-256 of a canonical text.
  pub record Digests : Type 0 where
    pub of_metadata : Option (List (String × Value n)) → String
    pub of_layout : List (Row n) → String
    pub of_names : List (Value n) → String
    pub of_shape : Case n → String

  unfoldable pub case_of : Value n → List (Value n × Case n) → Option (Case n)
  case_of name [] = none
  case_of name ((other, case) ∷ cases) =
      if py_eq n other name then some case else case_of name cases

  unfoldable pub when_differs : Bool → Inconsistency (Value n) → List (Inconsistency (Value n))
  when_differs true problem = problem ∷ []
  when_differs false problem = []

  module _ (digests : Digests) where
    open digests use {of_metadata, of_layout, of_names, of_shape}

    abbrev pub shapes_of : Value n → List (Entry n) → List String
    shapes_of name counted =
        map of_shape (somes (map (λ run. case_of name run.parsed.cases) counted))

    unfoldable pub shape_problems : List (Entry n) → List (Value n) → List (Inconsistency (Value n))
    unfolding when_differs differs case_of
    shape_problems counted [] = []
    shape_problems counted (name ∷ names) =
        when_differs (differs (shapes_of name counted)) (shape_differs name)
        ++ shape_problems counted names

    unfoldable pub consistency : List (Entry n) → List (Inconsistency (Value n))
    unfolding shape_problems when_differs differs all_case_names
    consistency runs =
        let counted = select (λ run. run.counts) runs in
        when_differs (differs (map (λ run. of_metadata run.parsed.metadata) counted))
          metadata_differs
        ++ when_differs (differs (map (λ run. of_layout run.parsed.layout) counted)) layout_differs
        ++ when_differs (differs (map (λ run. of_names (map (λ c. c.0) run.parsed.cases)) counted))
            cases_differ
        ++ shape_problems counted (all_case_names n [] counted)

    -- What `results.json` is written from. Its text, the provenance and the units are not modelled.
    pub record Saved : Type 0 where
      pub variants : List Variant
      pub reference : String
      pub settings : Settings n
      pub results : Results n
      pub complete : Bool
      pub problems : List (Inconsistency (Value n))
      pub derived : Tables n

    -- How a command ends: with a status, or with an exception that nothing catches.
    pub data Exit : Type 0 where
      exited : ℕ → Exit
      raised : Exception → Exit

    unfoldable pub run_status : Saved → Exit
    run_status saved =
        if any (λ run. not run.counts) saved.results.runs || not (none_left n saved.problems)
        then exited 1
        else exited 0

    unfoldable pub loop_ended : Option Exception → Bool
    loop_ended none = true
    loop_ended (some e) = false

    -- The `finally` block: the problems and the statistics that the results get before they are
    -- written, unless `derive` raises. The writing as JSON is not modelled.
    unfoldable pub save :
        List Variant → String → Settings n → Results n × Option Exception → Result Exception Saved
    unfolding consistency derive loop_ended
    save variants reference settings (results, failure) =
        derive n variants reference settings results.runs >>= λ derived. ok (record {
          variants = variants;
          reference = reference;
          settings = settings;
          results = results;
          complete = loop_ended failure;
          problems = consistency results.runs;
          derived = derived;
        })

    unfoldable pub exit_of : Saved → Option Exception → Exit
    unfolding run_status
    exit_of saved none = run_status saved
    exit_of saved (some e) = raised e

    unfoldable pub finish_run : Option Exception → Result Exception Saved → Option Saved × Exit
    unfolding exit_of
    finish_run failure (err e) = (none, raised e)
    finish_run failure (ok saved) = (some saved, exit_of saved failure)

    -- What the file system and the build say before the first run.
    pub record Place : Type 0 where
      pub output_is_there : Bool
      pub is_executable : String → Bool
      pub build_succeeds : Bool

    abbrev pub unusable_binary : Place → Option String → Bool
    unusable_binary place none = false
    unusable_binary place (some binary) = not (place.is_executable binary)

    abbrev pub build_fails : Place → Option String → Bool
    build_fails place none = not place.build_succeeds
    build_fails place (some binary) = false

    module _ (uni : Unicode) (place : Place) (world : ℕ → ℕ → Variant → Report n) where
      unfoldable pub command_run : Args n → Result UsageError (Option Saved × Exit)
      unfolding validate run_rounds save finish_run
      command_run args = validate uni n args >>= λ checked.
          let (variants, reference, settings) = checked in
          raise_if place.output_is_there output_exists >>= λ absent.
          raise_if (unusable_binary place args.binary) binary_not_executable >>= λ usable.
          raise_if (build_fails place args.binary) build_failed >>= λ built.
          let loop = run_rounds n world settings (pos_part args.rounds) 0 variants (no_results n) in
          ok (finish_run loop.1 (save variants reference settings loop))

    -- `main`: a usage error is reported, and the status is 2.
    abbrev pub main_status : Result UsageError Exit → Exit
    main_status (ok e) = e
    main_status (err usage) = exited 2
