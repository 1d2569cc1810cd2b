-- ===== src/Placement/Run/Whole.antt =====
-- A whole output that raises no problem shows a run that counts.
use telar.Json.{null, bool, int, real, text, arr}
use telar.Placement.Run.OneCase.{parse_case}
use telar.Prelude.Result.{ok-injective, >>=-eq-ok}
use telar.Prelude.Int.{ℤ}
use telar.Placement.Run.Silent.{when-nil, map-eq-nil, append-eq-nil, single-some}
use telar.Placement.Run.Counts.{differs-false, parse_case-IsCounted, IsCounted, Same}
use telar.Placement.Run.Rows.{differs, when, of_kind, single}
use telar.Placement.Validate.{Settings}
use telar.Json.{arr, text, real, py_eq, get, int, bool, Value, Row}
use telar.Placement.{Variant}
use telar.Placement.Run.Output.{
  from_keys, read_selected, expected_policy, drop_keys, parse_run, name_problems, layout_problems,
  read_cases, repeat_problems, read_policy, policy_problems, read_metadata, read_lines,
}
use telar.Prelude.{
  of_not, ==_iff, not, subst, sym, ap, Option, count_if, List, [], ◌∷◌, refl, ◌≡◌, All, ℕ, ◌+◌,
  String, map, Option-cases, inl, inr, ◌∙◌, ◌==◌,
}
use telar.Placement.Run.{obj, blank, not_json, value, Line, Problem, Case, Parsed, ok}
use telar.Number.{Number}

module _ (n : Number) where
  -- A line that is blank or holds a JSON object.
  unfoldable pub IsReadable : Line n → Type 0
  IsReadable blank = Unit
  IsReadable not_json = ⊥
  IsReadable (value (obj row)) = Unit
  IsReadable (value v) = ⊥

  read_lines-nil :
      (number : ℕ) (lines : List (Line n))
      → (read_lines n number lines).1 ≡ []
      → All IsReadable lines
  unfolding read_lines IsReadable
  read_lines-nil number [] h = tt
  read_lines-nil number (blank ∷ lines) h = (tt, read_lines-nil (number + 1) lines h)
  read_lines-nil number (not_json ∷ lines) h = cc
  read_lines-nil number (value (obj row) ∷ lines) h = (tt, read_lines-nil (number + 1) lines h)
  read_lines-nil number (value null ∷ lines) h = cc
  read_lines-nil number (value (bool b) ∷ lines) h = cc
  read_lines-nil number (value (int i) ∷ lines) h = cc
  read_lines-nil number (value (real x) ∷ lines) h = cc
  read_lines-nil number (value (text s) ∷ lines) h = cc
  read_lines-nil number (value (arr l) ∷ lines) h = cc

  read_metadata-nil :
      (rows : List (Row n)) → (read_metadata n rows).1 ≡ [] → (row : Row n) × (rows ≡ row ∷ [])
  unfolding read_metadata
  read_metadata-nil rows h = elim (Option-cases (single n rows)) [
    | inl e ↦ cc (rw (e, read_metadata) at h)
    | inr (row, e) ↦ (row, single-some n rows row e)
  ]

  policy_problems-nil :
      (policy : Row n) (expected : List (String × Value n))
      → policy_problems n policy expected ≡ []
      → All (λ (e : String × Value n). Same n (get e.0 policy) e.1) expected
  unfolding policy_problems
  policy_problems-nil policy [] h = tt
  policy_problems-nil policy ((key, expected) ∷ rest) h =
      let (first, later) = append-eq-nil (when n (differs n (get key policy) expected) _) _ h in
      (differs-false n _ _ (when-nil n _ _ first), policy_problems-nil policy rest later)

  read_policy-nil :
      (rows : List (Row n)) (variant : Variant) (settings : Settings n)
      → (read_policy n rows variant settings).1 ≡ []
      → (row : Row n) × (rows ≡ row ∷ [])
        × All
            (λ (e : String × Value n). Same n (get e.0 (drop_keys n ("type" ∷ []) row)) e.1)
            (expected_policy n variant settings)
  unfolding read_policy
  read_policy-nil rows variant settings h = elim (Option-cases (single n rows)) [
    | inl e ↦ cc (rw (e, read_policy) at h)
    | inr (row, e) ↦ (
      row,
      single-some n rows row e,
      policy_problems-nil (drop_keys n ("type" ∷ []) row) (expected_policy n variant settings)
          (rw (e, read_policy) at h),
    )
  ]

  repeat_problems-nil :
      (names rest : List (Value n))
      → repeat_problems n names rest ≡ []
      → All (λ name. count_if (λ other. py_eq n other name) names ≡ 1) rest
  unfolding repeat_problems
  repeat_problems-nil names [] h = tt
  repeat_problems-nil names (name ∷ rest) h =
      let (first, later) =
        append-eq-nil (when n (not (count_if (λ other. py_eq n other name) names == 1)) _) _ h in
      ((==_iff _ _).0 (of_not _ (when-nil n _ _ first)), repeat_problems-nil names rest later)

  read_cases-names :
      (rows : List (Row n)) (walk : Option ℤ) (names : List (Value n))
      {cases : List (Value n × Case n)} {problems : List (Problem n)}
      → read_cases n rows walk names ≡ ok (cases, problems)
      → map (λ (c : Value n × Case n). c.0) cases ≡ names
  unfolding read_cases
  read_cases-names rows walk [] h =
      ap
        (λ (p : List (Value n × Case n) × List (Problem n)).
          map (λ (c : Value n × Case n). c.0) p.0)
        (sym (ok-injective h))
  read_cases-names rows walk (name ∷ names) {cases} h =
      let ((case, problems), read, h1) = >>=-eq-ok (parse_case n rows name walk) _ h in
      let ((later, others), found, h2) = >>=-eq-ok (read_cases n rows walk names) _ h1 in
      ap
        (λ (p : List (Value n × Case n) × List (Problem n)).
          map (λ (c : Value n × Case n). c.0) p.0)
        (sym (ok-injective h2))
      ∙ ap (λ l. name ∷ l) (read_cases-names rows walk names found)

  read_cases-nil :
      (rows : List (Row n)) (walk : Option ℤ) (names : List (Value n))
      {cases : List (Value n × Case n)} {problems : List (Problem n)}
      → read_cases n rows walk names ≡ ok (cases, problems)
      → problems ≡ []
      → All (λ (c : Value n × Case n). IsCounted n rows c.0 c.1) cases
  unfolding read_cases
  read_cases-nil rows walk [] h none_left =
      subst (All (λ (c : Value n × Case n). IsCounted n rows c.0 c.1))
        (ap (λ (p : List (Value n × Case n) × List (Problem n)). p.0) (ok-injective h)) tt
  read_cases-nil rows walk (name ∷ names) {cases} {problems} h none_left =
      let ((case, of_name), read, h1) = >>=-eq-ok (parse_case n rows name walk) _ h in
      let ((later, others), found, h2) = >>=-eq-ok (read_cases n rows walk names) _ h1 in
      let made = ok-injective h2 in
      let (first, rest) =
        append-eq-nil (map (Problem.of_case name) of_name) others
          (ap (λ (p : List (Value n × Case n) × List (Problem n)). p.1) made ∙ none_left) in
      let counted = parse_case-IsCounted n rows name walk case (
        subst (λ ps. parse_case n rows name walk ≡ ok (case, ps))
          (map-eq-nil (Problem.of_case name) of_name first) read) in
      subst (All (λ (c : Value n × Case n). IsCounted n rows c.0 c.1))
        (ap (λ (p : List (Value n × Case n) × List (Problem n)). p.0) made)
        (counted, read_cases-nil rows walk names found rest)

  -- What a counted output shows: each line readable; one metadata row; one policy row that agrees
  -- with what the variant and the settings ask for; a layout; at least one benchmark name, each
  -- reported once; and a counted case for each of the names.
  pub record Counts (stdout : List (Line n)) (variant : Variant) (settings : Settings n)
      (parsed : Parsed n) : Type 0 where
    pub readable : All IsReadable stdout
    pub metadata : Row n
    pub only_metadata : of_kind n "metadata" (read_lines n 1 stdout).0 ≡ metadata ∷ []
    pub policy : Row n
    pub only_policy : of_kind n "placement_policy" (read_lines n 1 stdout).0 ≡ policy ∷ []
    pub as_asked :
        All
          (λ (e : String × Value n). Same n (get e.0 (drop_keys n ("type" ∷ []) policy)) e.1)
          (expected_policy n variant settings)
    pub has_layout : ¬ (of_kind n "placement_layout" (read_lines n 1 stdout).0 ≡ [])
    pub names : List (Value n)
    pub reported : map (get "name") (of_kind n "benchmark" (read_lines n 1 stdout).0) ≡ names
    pub some_name : ¬ (names ≡ [])
    pub once : All (λ name. count_if (λ other. py_eq n other name) names ≡ 1) names
    pub keys : from_keys n [] names ≡ ok (map (λ (c : Value n × Case n). c.0) parsed.cases)
    pub counted :
        All (λ (c : Value n × Case n). IsCounted n (read_lines n 1 stdout).0 c.0 c.1) parsed.cases

  layout_problems-nil : (rows : List (Row n)) → layout_problems n rows ≡ [] → ¬ (rows ≡ [])
  unfolding layout_problems
  layout_problems-nil [] h e = cc
  layout_problems-nil (row ∷ rows) h e = cc

  name_problems-nil : (names : List (Value n)) → name_problems n names ≡ [] → ¬ (names ≡ [])
  unfolding name_problems
  name_problems-nil [] h e = cc
  name_problems-nil (name ∷ names) h e = cc

  -- An output of which `parse_run` finds no problem shows a run that counts: every line is blank or
  -- a JSON object, there is one metadata row and one policy row, the policy says what the variant and
  -- the settings ask for, there is a layout, at least one benchmark name and each of them once, and
  -- the cases returned are those names, each with what a counted case must show.
  pub parse_run-Counts :
      (stdout : List (Line n)) (variant : Variant) (settings : Settings n) (parsed : Parsed n)
      → parse_run n stdout variant settings ≡ ok (parsed, [])
      → Counts stdout variant settings parsed
  unfolding parse_run
  parse_run-Counts stdout variant settings parsed h =
      let rows = (read_lines n 1 stdout).0 in
      let layout = of_kind n "placement_layout" rows in
      let names = map (get "name") (of_kind n "benchmark" rows) in
      let (selected, _, h1) = >>=-eq-ok (read_selected n layout []) _ h in
      let (distinct, keyed, h2) = >>=-eq-ok (from_keys n [] names) _ h1 in
      let ((cases, of_cases), found, h3) =
        >>=-eq-ok (read_cases n rows settings.intervening_walk distinct) _ h2 in
      let made = ok-injective h3 in
      let same = ap (λ (p : Parsed n × List (Problem n)). p.0.cases) made in
      let q6 =
        append-eq-nil _ (name_problems n names)
          (ap (λ (p : Parsed n × List (Problem n)). p.1) made) in
      let q5 = append-eq-nil _ of_cases q6.0 in
      let q4 = append-eq-nil _ (repeat_problems n names names) q5.0 in
      let q3 = append-eq-nil _ (layout_problems n layout) q4.0 in
      let q2 =
        append-eq-nil _ (read_policy n (of_kind n "placement_policy" rows) variant settings).1
          q3.0 in
      let q1 =
        append-eq-nil (read_lines n 1 stdout).1 (read_metadata n (of_kind n "metadata" rows)).1
          q2.0 in
      let (m, only_m) = read_metadata-nil _ q1.1 in
      let (p, only_p, asked) = read_policy-nil _ variant settings q2.1 in
      record {
        readable = read_lines-nil 1 stdout q1.0;
        metadata = m;
        only_metadata = only_m;
        policy = p;
        only_policy = only_p;
        as_asked = asked;
        has_layout = layout_problems-nil layout q3.1;
        names = names;
        reported = refl;
        some_name = name_problems-nil names q6.1;
        once = repeat_problems-nil names names q4.1;
        keys =
            keyed
            ∙ ap ok (
                sym (read_cases-names rows settings.intervening_walk distinct found)
                ∙ ap (map (λ (c : Value n × Case n). c.0)) same);
        counted =
            subst (All (λ (c : Value n × Case n). IsCounted n rows c.0 c.1)) same
              (read_cases-nil rows settings.intervening_walk distinct found q5.1);
      }
