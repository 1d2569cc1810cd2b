-- ===== src/PerfGate/Verdict.antt =====
-- What an exit status of 0 or 1 says of the runs.
use telar.Prelude.{
  true, false, ℕ, ◌≡◌, ◌↔◌, ◌⊎◌, String, true, false, Option, some, List, [], ◌∷◌, ◌++◌, All,
}
use telar.Prelude.Int.{pos, ltb_ℤ}
use telar.Prelude.Result.{ok}
use telar.Number.{Number}
use telar.Json.{Value}
use telar.Placement.Run.{Line}
use telar.Benchmarks.{Loaded}
use telar.PerfGate.Comparable.{IsLike}
use telar.PerfGate.{
  Args, Figures, timings, percent, noisy, aggregate, payload_delta, find_figures, load_all,
}

module _ (n : Number) (parse_float : String → Option n.Num) where
  open n use {Num, lt}

  module _ (args : Args n parse_float) where
    -- No timing of the case grew by more than its threshold, nor the payload by more than the delta.
    pub record IsWithin (old new : Figures n parse_float) : Type 0 where
      pub p50 : lt args.p50_percent (percent n parse_float new.p50 old.p50) ≡ false
      pub p95 : lt args.p95_percent (percent n parse_float new.p95 old.p95) ≡ false
      pub p99 : lt args.p99_percent (percent n parse_float new.p99 old.p99) ≡ false
      pub delta : ℕ
      pub measured : payload_delta n parse_float new.payload old.payload ≡ ok delta
      pub payload : ltb_ℤ args.payload_byte_delta (pos delta) ≡ false

    abbrev pub Passes :
        List (Value n × Figures n parse_float) → Value n × Figures n parse_float → Type 0
    Passes table case =
        (new : Figures n parse_float) × (find_figures n parse_float case.0 table ≡ some new)
        × IsWithin case.1 new

    -- What a verdict rests on.
    pub record IsJudged (baseline candidate : List (Option (List (Line n)))) (status : ℕ)
        : Type 0 where
      pub b0 : Loaded n
      pub bs : List (Loaded n)
      pub c0 : Loaded n
      pub cs : List (Loaded n)
      pub baseline_runs : load_all n parse_float baseline ≡ ok (b0 ∷ bs)
      pub candidate_runs : load_all n parse_float candidate ≡ ok (c0 ∷ cs)
      pub comparable : All (IsLike n parse_float b0) (bs ++ c0 ∷ cs)
      pub noise_b : List (Value n × String)
      pub noise_c : List (Value n × String)
      pub noisy_b : noisy n parse_float b0 bs (timings n parse_float args) ≡ ok noise_b
      pub noisy_c : noisy n parse_float c0 cs (timings n parse_float args) ≡ ok noise_c
      pub quiet : (noise_b ++ noise_c ≡ []) ⊎ (args.allow_noisy ≡ true)
      pub old : List (Value n × Figures n parse_float)
      pub new : List (Value n × Figures n parse_float)
      pub old_figures : aggregate n parse_float b0 bs ≡ ok old
      pub new_figures : aggregate n parse_float c0 cs ≡ ok new
      pub zero_or_one : (status ≡ 0) ⊎ (status ≡ 1)
      pub passes : (status ≡ 0) ↔ All (Passes new) old
