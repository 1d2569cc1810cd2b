-- ===== src/Reexports/Exact.antt =====
-- `library_aliases` holds exactly the names that reach a library.
use telar.Prelude.{
  All-mono, ℕ, suc, zero, ◌≤◌, ◌≡◌, ◌↔◌, refl, sym, subst, String, true, false, not, ◌&&◌, inl, inr,
  some, some-injective, get_elem?, List, [], ◌∷◌, All, length, select, str_eq, eq_iff, Bool-cases,
  arith,
}
use telar.Reexports.{Alias, contains, is_library, imported, pass, grow, library_aliases, reexports}
use telar.Reexports.Closure.{
  In, Reaches, of_import, of_alias, contains-cons, contains-head, missing, grow-IsClosed,
  grow-contains,
}

missing-le-length :
    (aliases : List String) (matches : List Alias) → missing aliases matches ≤ length matches
unfolding missing
missing-le-length aliases [] = omega arith
missing-le-length aliases (m ∷ matches) = ground (arith, missing-le-length aliases matches)

All-contains :
    (P : String → Type 0) (xs : List String) (x : String) → All P xs → contains xs x ≡ true → P x
All-contains P [] x p h = cc
All-contains P (y ∷ ys) x p h = elim (Bool-cases (str_eq x y)) [
  | inl e ↦ subst P (sym ((eq_iff x y).0 e)) p.0
  | inr e ↦ All-contains P ys x p.1 (rw e at h)
]

-- What holds of every element holds of the list.
All-In : (P : Alias → Type 0) (xs : List Alias) → ((m : Alias) → In m xs → P m) → All P xs
All-In P [] f = tt
All-In P (x ∷ xs) f = (f x (0, refl), All-In P xs (λ m (i, at). f m (suc i, at)))

In-All :
    (P : Alias → Type 0) (xs : List Alias) (m : Alias) (i : ℕ)
    → get_elem? xs i ≡ some m
    → All P xs
    → P m
In-All P [] m i at p = cc
In-All P (x ∷ xs) m zero at p = subst P (some-injective at) p.0
In-All P (x ∷ xs) m (suc i) at p = In-All P xs m i at p.1

module _ (imports matches : List Alias) (names : List String) where
  abbrev Good : String → Type 0
  Good x = Reaches imports matches names x

  imported-Reaches :
      (some_imports : List Alias)
      → All (λ m. In m imports) some_imports
      → All Good (imported some_imports names)
  unfolding imported
  imported-Reaches [] p = tt
  imported-Reaches (m ∷ rest) p = elim (Bool-cases (is_library names m.root)) [
    | inl e ↦ rw (e, imported) (of_import m p.0 e, imported-Reaches rest p.1)
    | inr e ↦ rw (e, imported) (imported-Reaches rest p.1)
  ]

  pass-Reaches :
      (some_matches : List Alias) (aliases : List String)
      → All (λ m. In m matches) some_matches
      → All Good aliases
      → All Good (pass some_matches aliases).0
  unfolding pass
  pass-Reaches [] aliases p good = good
  pass-Reaches (m ∷ rest) aliases p good =
      elim (Bool-cases (contains aliases m.root && not (contains aliases m.name))) [
        | inl e ↦
            rw (e, pass)
              (pass-Reaches rest (m.name ∷ aliases) p.1
                (of_alias m p.0 (All-contains Good aliases m.root good (ground (arith, e))), good))
        | inr e ↦ rw (e, pass) (pass-Reaches rest aliases p.1 good)
      ]

  grow-Reaches :
      (fuel : ℕ) (aliases : List String) → All Good aliases → All Good (grow fuel matches aliases)
  unfolding grow
  grow-Reaches zero aliases good = good
  grow-Reaches (suc fuel) aliases good =
      let next =
        pass-Reaches matches aliases (All-In (λ m. In m matches) matches (λ m at. at)) good in
      elim (Bool-cases (pass matches aliases).1) [
        | inl e ↦ rw (e, grow) (grow-Reaches fuel (pass matches aliases).0 next)
        | inr e ↦ rw (e, grow) next
      ]

  contains-imported :
      (some_imports : List Alias) (m : Alias) (i : ℕ)
      → get_elem? some_imports i ≡ some m
      → is_library names m.root ≡ true
      → contains (imported some_imports names) m.name ≡ true
  unfolding imported
  contains-imported [] m i at library = cc
  contains-imported (first ∷ rest) m zero at library =
      let same : first ≡ m = some-injective at in
      let library' = subst (λ (a : Alias). is_library names a.root ≡ true) (sym same) library in
      rw (library', imported)
        (subst (λ (a : Alias). contains (first.name ∷ imported rest names) a.name ≡ true) same
          (contains-head first.name (imported rest names)))
  contains-imported (first ∷ rest) m (suc i) at library =
      elim (Bool-cases (is_library names first.root)) [
        | inl e ↦
            rw (e, imported)
              (contains-cons m.name first.name (imported rest names)
                (contains-imported rest m i at library))
        | inr e ↦ rw (e, imported) (contains-imported rest m i at library)
      ]

  Reaches-contains :
      (x : String)
      → Reaches imports matches names x
      → contains (library_aliases imports matches names) x ≡ true
  unfolding library_aliases
  Reaches-contains x (of_import m (i, at) library) =
      grow-contains (suc (length matches)) matches (imported imports names) m.name
        (contains-imported imports m i at library)
  Reaches-contains x (of_alias m (i, at) root) =
      In-All
        (λ a.
          contains (grow (suc (length matches)) matches (imported imports names)) a.root ≡ true
          → contains (grow (suc (length matches)) matches (imported imports names)) a.name ≡ true)
        matches m i at
        (grow-IsClosed (suc (length matches)) matches (imported imports names)
          (omega (arith, missing-le-length (imported imports names) matches)))
        (Reaches-contains m.root root)

  -- The loop over the aliases ends, and its names are exactly those that reach a library: the
  -- imports of one, and the aliases of such names, however long the chain and whatever the order.
  pub library_aliases_iff :
      (x : String)
      → (contains (library_aliases imports matches names) x ≡ true)
        ↔ Reaches imports matches names x
  unfolding library_aliases
  library_aliases_iff x = (
    λ h.
        All-contains Good _ x
          (grow-Reaches (suc (length matches)) (imported imports names)
            (imported-Reaches imports (All-In (λ m. In m imports) imports (λ m at. at))))
          h,
    Reaches-contains x,
  )

  select-nil :
      (aliases : List String) (public : List Alias)
      → select (λ m. contains aliases m.root) public ≡ []
      → All (λ m. contains aliases m.root ≡ false) public
  select-nil aliases [] h = tt
  select-nil aliases (m ∷ public) h = elim (Bool-cases (contains aliases m.root)) [
    | inl e ↦ cc (rw (e, select) at h)
    | inr e ↦ (e, select-nil aliases public (rw (e, select) at h))
  ]

  nil-select :
      (aliases : List String) (public : List Alias)
      → All (λ m. contains aliases m.root ≡ false) public
      → select (λ m. contains aliases m.root) public ≡ []
  nil-select aliases [] h = refl
  nil-select aliases (m ∷ public) (e, h) = rw (e, select) (nil-select aliases public h)

  clash :
      (x : String)
      → contains (library_aliases imports matches names) x ≡ false
      → contains (library_aliases imports matches names) x ≡ true
      → ⊥
  clash x absent present = cc

  unreached :
      (x : String)
      → ¬ (Reaches imports matches names x)
      → contains (library_aliases imports matches names) x ≡ false
  unreached x unable = elim (Bool-cases (contains (library_aliases imports matches names) x)) [
    | inl e ↦ absurd (unable ((library_aliases_iff x).0 e))
    | inr e ↦ e
  ]

  -- A file is reported without a re-export exactly when no public constant of it names something
  -- that reaches a library.
  pub reexports-nil_iff :
      (public : List Alias)
      → (reexports imports matches public names ≡ [])
        ↔ All (λ m. ¬ (Reaches imports matches names m.root)) public
  unfolding reexports
  reexports-nil_iff public = (
    λ h.
        All-mono (λ m e reached. clash m.root e ((library_aliases_iff m.root).1 reached)) public
          (select-nil (library_aliases imports matches names) public h),
    λ h.
        nil-select (library_aliases imports matches names) public
          (All-mono (λ m unable. unreached m.root unable) public h),
  )
