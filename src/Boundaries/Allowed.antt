-- ===== src/Boundaries/Allowed.antt =====
-- No violation is reported only where every import is allowed.
use telar.Prelude.{
  refl, true, false, ◌≡◌, inl, inr, ◌⊎◌, String, Bool, not, ◌&&◌, ◌||◌, Option, none, some, List,
  [], ◌∷◌, All, any, str_eq, Bool-cases, Option-cases,
}
use telar.Placement.Run.Silent.{append-eq-nil}
use telar.Boundaries.{
  violations, source_errors, call_errors, Source, Call, allowed_modules, calls_of, is_zig,
  is_absolute, is_native, header_errors, file_error, import_error, import_errors,
}

-- A call is of the kind asked for.
abbrev pub asked_for : Bool → Call → Bool
asked_for import call = (call.is_import && import) || (not call.is_import && not import)

-- Each call of the kind has a literal argument of which `P` holds.
abbrev pub Literal : (String → Type 0) → Bool → Call → Type 0
Literal P import call =
    asked_for import call ≡ true
    → (argument : String) × (call.argument ≡ some argument) × P argument

clash : (b : Bool) → b ≡ true → b ≡ false → ⊥
clash b h k = cc

calls_of-Literal :
    (P : String → Type 0) (import : Bool) (calls : List Call)
    → (calls_of import calls).1 ≡ false
    → All P (calls_of import calls).0
    → All (Literal P import) calls
unfolding calls_of
calls_of-Literal P import [] h all = tt
calls_of-Literal P import (call ∷ calls) h all = elim (Bool-cases (asked_for import call)) [
  | inr e ↦ (
    (λ k. absurd (clash _ k e)),
    calls_of-Literal P import calls (rw (e, calls_of) at h) (rw (e, calls_of) at all),
  )
  | inl e ↦ elim (Option-cases call.argument) [
    | inl a ↦ cc (rw (e, a, calls_of) at h)
    | inr (argument, a) ↦
        let all' = rw (e, a, calls_of) at all in
        (
          (λ k. (argument, a, all'.0)),
          calls_of-Literal P import calls (rw (e, a, calls_of) at h) all'.1,
        )
  ]
]

header_errors-nil :
    (name : String) (headers : List String)
    → header_errors name headers ≡ []
    → All (λ header. is_native name header ≡ true) headers
unfolding header_errors
header_errors-nil name [] h = tt
header_errors-nil name (header ∷ headers) h = elim (Bool-cases (is_native name header)) [
  | inl e ↦ (e, header_errors-nil name headers (rw (e, header_errors) at h))
  | inr e ↦ cc (rw (e, header_errors) at h)
]

module _ (resolve : String → String → Option String) (libraries files : List String) where
  -- A module is one of those allowed or a library; a file stays in the package and exists.
  abbrev pub Passes : String → String → Type 0
  Passes name imported =
      ((is_zig imported ≡ false)
        × ((any (str_eq imported) allowed_modules || any (str_eq imported) libraries) ≡ true))
      ⊎ ((is_zig imported ≡ true)
          × (is_absolute imported ≡ false)
          × ((path : String) × (resolve name imported ≡ some path)
              × (any (str_eq path) files ≡ true)))

  file_error-nil :
      (name imported : String) (o : Option String)
      → file_error resolve libraries files name imported o ≡ []
      → (path : String) × (o ≡ some path) × (any (str_eq path) files ≡ true)
  file_error-nil name imported none h = cc
  file_error-nil name imported (some path) h = elim (Bool-cases (any (str_eq path) files)) [
    | inl e ↦ (path, refl, e)
    | inr e ↦ cc (rw e at h)
  ]

  import_error-nil :
      (name imported : String)
      → import_error resolve libraries files name imported ≡ []
      → Passes name imported
  unfolding import_error
  import_error-nil name imported h = elim (Bool-cases (is_zig imported)) [
    | inr e ↦
        elim (Bool-cases
          (any (str_eq imported) allowed_modules || any (str_eq imported) libraries)) [
            | inl m ↦ inl (e, m)
            | inr m ↦ cc (rw (e, m, import_error) at h)
          ]
    | inl e ↦ elim (Bool-cases (is_absolute imported)) [
      | inl a ↦ cc (rw (e, a, import_error) at h)
      | inr a ↦ inr (
        e,
        a,
        file_error-nil name imported (resolve name imported) (rw (e, a, import_error) at h),
      )
    ]
  ]

  import_errors-nil :
      (name : String) (paths : List String)
      → import_errors resolve libraries files name paths ≡ []
      → All (Passes name) paths
  unfolding import_errors
  import_errors-nil name [] h = tt
  import_errors-nil name (imported ∷ paths) h =
      let (first, rest) = append-eq-nil (import_error resolve libraries files name imported) _ h in
      (import_error-nil name imported first, import_errors-nil name paths rest)

  -- The file lies in the package under its own path, and each of its calls names a module, a file or
  -- a header that passes, as a literal.
  pub record IsAllowed (source : Source) : Type 0 where
    pub inside : source.in_package ≡ true
    pub own_path : source.is_alias ≡ false
    pub calls : List Call
    pub decoded : source.calls ≡ some calls
    pub imports : All (Literal (Passes source.name) true) calls
    pub headers : All (Literal (λ header. is_native source.name header ≡ true) false) calls

  call_errors-nil :
      (name : String) (calls : List Call)
      → call_errors resolve libraries files name calls ≡ []
      → All (Literal (Passes name) true) calls
        × All (Literal (λ header. is_native name header ≡ true) false) calls
  unfolding call_errors
  call_errors-nil name calls h = elim (Bool-cases (calls_of true calls).1) [
    | inl e ↦ cc (rw (e, call_errors) at h)
    | inr e ↦
        let (native, rest) =
          append-eq-nil (header_errors name (calls_of false calls).0) _
            (rw (e, call_errors) at h) in
        elim (Bool-cases (calls_of false calls).1) [
          | inl r ↦ cc (rw r at rest)
          | inr r ↦ (
            calls_of-Literal (Passes name) true calls e
                (import_errors-nil name (calls_of true calls).0 (rw r at rest)),
            calls_of-Literal (λ header. is_native name header ≡ true) false calls r
                (header_errors-nil name (calls_of false calls).0 native),
          )
        ]
  ]

  source_errors-nil :
      (source : Source) → source_errors resolve libraries files source ≡ [] → IsAllowed source
  unfolding source_errors
  source_errors-nil source h = elim (Bool-cases source.in_package) [
    | inr e ↦ cc (rw (e, source_errors) at h)
    | inl e ↦ elim (Bool-cases source.is_alias) [
      | inl a ↦ cc (rw (e, a, source_errors) at h)
      | inr a ↦ elim (Option-cases source.calls) [
        | inl c ↦ cc (rw (e, a, c, source_errors) at h)
        | inr (calls, c) ↦
            let (imports, headers) =
              call_errors-nil source.name calls (rw (e, a, c, source_errors) at h) in
            record {
              inside = e;
              own_path = a;
              calls = calls;
              decoded = c;
              imports = imports;
              headers = headers;
            }
      ]
    ]
  ]

  -- Where nothing is reported, every file lies in the package under its own path, and each of its
  -- imports is a literal that names an allowed module, a library or an existing file of the package,
  -- and each of its native headers is a literal that this file may include.
  pub violations-IsAllowed :
      (sources : List Source)
      → violations resolve libraries files sources ≡ []
      → All IsAllowed sources
  unfolding violations
  violations-IsAllowed [] h = tt
  violations-IsAllowed (source ∷ sources) h =
      let (first, rest) = append-eq-nil (source_errors resolve libraries files source) _ h in
      (source_errors-nil source first, violations-IsAllowed sources rest)
