-- ===== src/Reexports/Closure.antt =====
-- The loop of `library_aliases` ends with the names that reach a library, and no others.
use telar.Prelude.{
  ℕ, suc, zero, ◌≤◌, ◌<◌, ◌≡◌, refl, sym, subst, String, true, false, not, ◌&&◌, inl, inr, some,
  some-injective, get_elem?, List, [], ◌∷◌, All, count_if, eq_iff, Bool-cases, arith,
}
use telar.Reexports.{Alias, contains, is_library, pass, grow}

abbrev pub In : Alias → List Alias → Type 0
In m matches = (i : ℕ) × (get_elem? matches i ≡ some m)

-- A name reaches a library: it imports one, or is an alias of a name that reaches one.
pub data Reaches (imports matches : List Alias) (names : List String) : String → Type 0 where
  of_import :
      (m : Alias)
      → In m imports
      → is_library names m.root ≡ true
      → Reaches imports matches names m.name
  of_alias :
      (m : Alias)
      → In m matches
      → Reaches imports matches names m.root
      → Reaches imports matches names m.name

pub contains-cons :
    (x y : String) (names : List String) → contains names x ≡ true → contains (y ∷ names) x ≡ true
contains-cons x y names h = ground (arith, h)

pub contains-head : (x : String) (names : List String) → contains (x ∷ names) x ≡ true
contains-head x names = ground (arith, (eq_iff x x).1 refl)

-- A pass keeps what it has.
pub pass-contains :
    (matches : List Alias) (aliases : List String) (x : String)
    → contains aliases x ≡ true
    → contains (pass matches aliases).0 x ≡ true
unfolding pass
pass-contains [] aliases x h = h
pass-contains (m ∷ matches) aliases x h =
    elim (Bool-cases (contains aliases m.root && not (contains aliases m.name))) [
      | inl e ↦
          rw (e, pass)
            (pass-contains matches (m.name ∷ aliases) x (contains-cons x m.name aliases h))
      | inr e ↦ rw (e, pass) (pass-contains matches aliases x h)
    ]

-- Whatever is an alias of one of the names is one of them.
abbrev pub IsClosed : List String → List Alias → Type 0
IsClosed aliases matches =
    All (λ (m : Alias). contains aliases m.root ≡ true → contains aliases m.name ≡ true) matches

-- A pass that adds nothing has nothing to add.
pub pass-IsClosed :
    (matches : List Alias) (aliases : List String)
    → (pass matches aliases).1 ≡ false
    → ((pass matches aliases).0 ≡ aliases) × IsClosed aliases matches
unfolding pass
pass-IsClosed [] aliases h = (refl, tt)
pass-IsClosed (m ∷ matches) aliases h =
    elim (Bool-cases (contains aliases m.root && not (contains aliases m.name))) [
      | inl e ↦ cc (rw (e, pass) at h)
      | inr e ↦
          let (same, closed) = pass-IsClosed matches aliases (rw (e, pass) at h) in
          (rw (e, pass) same, (λ root. ground (arith, e, root), closed))
    ]

-- A pass that adds a name adds one that was missing.
pass-grows :
    (matches : List Alias) (aliases : List String)
    → (pass matches aliases).1 ≡ true
    → (m : Alias) × In m matches
      × (contains aliases m.name ≡ false)
      × (contains (pass matches aliases).0 m.name ≡ true)
unfolding pass
pass-grows [] aliases h = cc
pass-grows (m ∷ matches) aliases h =
    elim (Bool-cases (contains aliases m.root && not (contains aliases m.name))) [
      | inl e ↦ (
        m,
        (0, refl),
        ground (arith, e),
        rw (e, pass)
            (pass-contains matches (m.name ∷ aliases) m.name (contains-head m.name aliases)),
      )
      | inr e ↦
          let (added, (i, at), missing, present) = pass-grows matches aliases (rw (e, pass) at h) in
          (added, (suc i, at), missing, rw (e, pass) present)
    ]

-- The matches whose names are still missing.
unfoldable pub missing : List String → List Alias → ℕ
missing aliases matches = count_if (λ m. not (contains aliases m.name)) matches

abbrev pub Keeps : List String → List String → Type 0
Keeps before behind = (x : String) → contains before x ≡ true → contains behind x ≡ true

pub missing-le :
    (before behind : List String) (matches : List Alias)
    → Keeps before behind
    → missing behind matches ≤ missing before matches
unfolding missing
missing-le before behind [] k = omega arith
missing-le before behind (m ∷ matches) k =
    ground (arith, k m.name, missing-le before behind matches k)

missing-lt :
    (before behind : List String) (matches : List Alias) (m : Alias) (i : ℕ)
    → Keeps before behind
    → get_elem? matches i ≡ some m
    → contains before m.name ≡ false
    → contains behind m.name ≡ true
    → missing behind matches < missing before matches
unfolding missing
missing-lt before behind [] m i k at gone here = cc
missing-lt before behind (first ∷ matches) m zero k at gone here =
    let same : first ≡ m = some-injective at in
    let gone' = subst (λ (a : Alias). contains before a.name ≡ false) (sym same) gone in
    let here' = subst (λ (a : Alias). contains behind a.name ≡ true) (sym same) here in
    ground (arith, gone', here', missing-le before behind matches k)
missing-lt before behind (first ∷ matches) m (suc i) k at gone here =
    ground (arith, k first.name, missing-lt before behind matches m i k at gone here)

pub grow-IsClosed :
    (fuel : ℕ) (matches : List Alias) (aliases : List String)
    → missing aliases matches < fuel
    → IsClosed (grow fuel matches aliases) matches
unfolding grow
grow-IsClosed zero matches aliases enough = absurd (omega arith)
grow-IsClosed (suc fuel) matches aliases enough = elim (Bool-cases (pass matches aliases).1) [
  | inl e ↦
      let (m, (i, at), gone, here) = pass-grows matches aliases e in
      let fewer =
        missing-lt aliases (pass matches aliases).0 matches m i
          (λ x h. pass-contains matches aliases x h) at gone here in
      rw (e, grow)
        (grow-IsClosed fuel matches (pass matches aliases).0 (omega (arith, fewer, enough)))
  | inr e ↦
      let (same, closed) = pass-IsClosed matches aliases e in
      rw (e, grow) (subst (λ a. IsClosed a matches) (sym same) closed)
]

pub grow-contains :
    (fuel : ℕ) (matches : List Alias) (aliases : List String) (x : String)
    → contains aliases x ≡ true
    → contains (grow fuel matches aliases) x ≡ true
unfolding grow
grow-contains zero matches aliases x h = h
grow-contains (suc fuel) matches aliases x h = elim (Bool-cases (pass matches aliases).1) [
  | inl e ↦
      rw (e, grow)
        (grow-contains fuel matches (pass matches aliases).0 x (pass-contains matches aliases x h))
  | inr e ↦ rw (e, grow) (pass-contains matches aliases x h)
]
