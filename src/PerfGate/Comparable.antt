-- ===== src/PerfGate/Comparable.antt =====
-- The runs that `validate_runs` accepts are comparable.
use telar.Prelude.{
  of_not, true, false, ◌≡◌, inl, inr, String, Bool, true, false, not, Option, List, [], ◌∷◌, All,
  any, Bool-cases,
}
use telar.Prelude.Result.{ok, guard-eq-ok}
use telar.Number.{Number}
use telar.Json.{get, py_eq}
use telar.Benchmarks.{Loaded, same_keys}
use telar.PerfGate.{metadata_fields, mismatch, validate_others}

module _ (n : Number) (parse_float : String → Option n.Num) where
  -- The same metadata and the same cases.
  pub record IsLike (reference run : Loaded n) : Type 0 where
    pub metadata :
        All
          (λ field. py_eq n (get field run.metadata) (get field reference.metadata) ≡ true)
          metadata_fields
    pub cases : same_keys n reference.cases run.cases ≡ true

  any-not :
      (p : String → Bool) (fields : List String)
      → any (λ field. not (p field)) fields ≡ false
      → All (λ field. p field ≡ true) fields
  any-not p [] h = tt
  any-not p (field ∷ fields) h = elim (Bool-cases (p field)) [
    | inl e ↦ (e, any-not p fields (rw e at h))
    | inr e ↦ cc (rw e at h)
  ]

  pub validate_others-IsLike :
      (reference : Loaded n) (runs : List (Loaded n))
      → validate_others n parse_float reference runs ≡ ok tt
      → All (IsLike reference) runs
  unfolding validate_others
  validate_others-IsLike reference [] h = tt
  validate_others-IsLike reference (run ∷ runs) h =
      let (same, h1) = guard-eq-ok (mismatch n parse_float reference run) _ _ h in
      let (keys, h2) = guard-eq-ok (not (same_keys n reference.cases run.cases)) _ _ h1 in
      (
        record {
          metadata =
              any-not (λ field. py_eq n (get field run.metadata) (get field reference.metadata))
                metadata_fields same;
          cases = of_not _ keys;
        },
        validate_others-IsLike reference runs h2,
      )
