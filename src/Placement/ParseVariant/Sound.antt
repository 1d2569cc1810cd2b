-- ===== src/Placement/ParseVariant/Sound.antt =====
-- What a variant that `parse_variant` accepts looks like.
use telar.Prelude.{
  of_not, subst, sym, ap, ◌∙◌, ◌≡◌, refl, ◌≢◌, ◌⊎◌, inl, inr, String, Bool, true, false, not, ◌||◌,
  ◌++◌, ◌∷◌, some, All, any, str_eq, arith,
}
use telar.Prelude.Int.{ℤ, pos, ◌≤ℤ◌}
use telar.Prelude.Result.{ok, guard-eq-ok, >>=-eq-ok, ok-injective}
use telar.Text.{Unicode, codes, partition, parse_int, is_empty}
use telar.Text.Partition.{partition-found, partition-missing, partition-before}
use telar.Placement.{Variant, modes}
use telar.Placement.ParseVariant.{is_name, read_threshold, parse_variant}

first_holds : (a b c : Bool) → (not a || b || c) ≡ false → a ≡ true
first_holds true b c h = refl
first_holds false b c h = cc

module _ (uni : Unicode) where
  -- `v` is what `text` says: NAME=MODE with the default threshold, or NAME=MODE:DIGITS.
  pub record IsParsed (text : String) (default : ℤ) (v : Variant) : Type 0 where
    pub letters : is_name uni v.name ≡ true
    pub no_equals : All (λ c. c ≢ b'=') (codes v.name)
    pub known : any (str_eq v.mode) modes ≡ true
    pub positive : pos 1 ≤ℤ v.threshold
    pub form :
        ((codes text ≡ codes v.name ++ b'=' ∷ codes v.mode) × (v.threshold ≡ default))
        ⊎ ((digits : String) × (codes text
              ≡ codes v.name ++ b'=' ∷ (codes v.mode ++ b':' ∷ codes digits))
            × (parse_int uni (codes digits) ≡ some v.threshold))

  read_threshold-lem :
      (text : String) (default : ℤ) (sep : Bool) (digits : String) (t : ℤ)
      → pos 1 ≤ℤ default
      → read_threshold uni text default sep digits ≡ ok t
      → (pos 1 ≤ℤ t)
        × (((sep ≡ false) × (t ≡ default))
            ⊎ ((sep ≡ true) × (parse_int uni (codes digits) ≡ some t)))
  unfolding read_threshold
  read_threshold-lem text default sep digits t low h = ground arith

  -- A text that `parse_variant` accepts is NAME=MODE or NAME=MODE:DIGITS of the variant returned:
  -- the name holds letters, digits, `_` and `-` and no `=`, the mode is one of the four, and the
  -- threshold is at least one byte, if the default threshold is.
  pub parse_variant-IsParsed :
      (text : String) (default : ℤ) (v : Variant)
      → pos 1 ≤ℤ default
      → parse_variant uni text default ≡ ok v
      → IsParsed text default v
  unfolding parse_variant
  parse_variant-IsParsed text default v low h =
      let name : String = (partition b'=' text).0 in
      let rest : String = (partition b'=' text).2 in
      let mode : String = (partition b':' rest).0 in
      let digits : String = (partition b':' rest).2 in
      let colon : Bool = (partition b':' rest).1 in
      let (form, h1) =
        guard-eq-ok (not (partition b'=' text).1 || is_empty name || is_empty rest) _ _ h in
      let (letters, h2) = guard-eq-ok (not (is_name uni name)) _ _ h1 in
      let (known, h3) = guard-eq-ok (not (any (str_eq mode) modes)) _ _ h2 in
      let (t, read, made) = >>=-eq-ok (read_threshold uni text default colon digits) _ h3 in
      let facts = read_threshold-lem text default colon digits t low read in
      let same = ok-injective made in
      let equals : (partition b'=' text).1 ≡ true = first_holds _ _ _ form in
      subst (IsParsed text default) same (record {
        letters = of_not _ letters;
        no_equals = partition-before b'=' text;
        known = of_not _ known;
        positive = facts.0;
        form = elim facts.1 [
          | inl (plain, e) ↦ inl (
            partition-found b'=' text equals
                ∙ ap (λ r. codes name ++ b'=' ∷ codes r) (sym (partition-missing b':' rest plain)),
            e,
          )
          | inr (found, e) ↦ inr (
            digits,
            partition-found b'=' text equals
                ∙ ap (λ cs. codes name ++ b'=' ∷ cs) (partition-found b':' rest found),
            e,
          )
        ];
      })
