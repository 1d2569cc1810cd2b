-- ===== src/Placement/Finish/Agreement.antt =====
-- What it means that `consistency` reports nothing.
use telar.Placement.Derive.{all_case_names}
use telar.Placement.Run.Silent.{append-eq-nil}
use telar.Json.{Value}
use telar.Placement.Session.{Entry}
use telar.Number.{Number}
use telar.Placement.Finish.{
  Inconsistency, shapes_of, consistency, shape_problems, when_differs, Digests, differs,
}
use telar.Prelude.{
  ◌≡◌, refl, Bool-cases, inl, inr, String, Bool, true, false, not, List, [], ◌∷◌, map, select, any,
  All, str_eq, eq_iff,
}

-- All the digests are the first one.
abbrev pub Agree : List String → Type 0
Agree [] = Unit
Agree (d ∷ ds) = All (λ e. e ≡ d) ds

any_other-Agree :
    (d : String) (ds : List String) → any (λ e. not (str_eq e d)) ds ≡ false → All (λ e. e ≡ d) ds
any_other-Agree d [] h = tt
any_other-Agree d (e ∷ ds) h = elim (Bool-cases (str_eq e d)) [
  | inl same ↦ ((eq_iff e d).0 same, any_other-Agree d ds (rw same at h))
  | inr other ↦ cc (rw other at h)
]

differs-Agree : (ds : List String) → differs ds ≡ false → Agree ds
unfolding differs
differs-Agree [] h = tt
differs-Agree (d ∷ ds) h = any_other-Agree d ds h

module _ (n : Number) (digests : Digests n) where
  open digests use {of_metadata, of_layout, of_names, of_shape}

  -- The runs that count share the metadata, the layout and the set of cases, and the runs that have
  -- a case share its shape and its numbers of records.
  pub record AreAlike (runs : List (Entry n)) : Type 0 where
    pub metadata :
        Agree (map (λ run. of_metadata run.parsed.metadata) (select (λ run. run.counts) runs))
    pub layout : Agree (map (λ run. of_layout run.parsed.layout) (select (λ run. run.counts) runs))
    pub cases :
        Agree (
          map (λ run. of_names (map (λ c. c.0) run.parsed.cases)) (select (λ run. run.counts) runs))
    pub shapes :
        All
          (λ name. Agree (shapes_of n digests name (select (λ run. run.counts) runs)))
          (all_case_names n [] (select (λ run. run.counts) runs))

  when_differs-nil : (b : Bool) (p : Inconsistency (Value n)) → when_differs n b p ≡ [] → b ≡ false
  unfolding when_differs
  when_differs-nil true p h = cc
  when_differs-nil false p h = refl

  shape_problems-nil :
      (counted : List (Entry n)) (names : List (Value n))
      → shape_problems n digests counted names ≡ []
      → All (λ name. Agree (shapes_of n digests name counted)) names
  unfolding shape_problems
  shape_problems-nil counted [] h = tt
  shape_problems-nil counted (name ∷ names) h =
      let (a, b) = append-eq-nil _ _ h in
      (differs-Agree _ (when_differs-nil _ _ a), shape_problems-nil counted names b)

  pub consistency-nil : (runs : List (Entry n)) → consistency n digests runs ≡ [] → AreAlike runs
  unfolding consistency
  consistency-nil runs h =
      let (abc, d) = append-eq-nil _ _ h in
      let (ab, c) = append-eq-nil _ _ abc in
      let (a, b) = append-eq-nil _ _ ab in
      record {
        metadata = differs-Agree _ (when_differs-nil _ _ a);
        layout = differs-Agree _ (when_differs-nil _ _ b);
        cases = differs-Agree _ (when_differs-nil _ _ c);
        shapes = shape_problems-nil (select (λ run. run.counts) runs) _ d;
      }
