-- ===== src/Boundaries.antt =====
-- tools/check_client_boundaries.py: which imports of the client package pass.
-- The matches of the regular expressions and what the file system says enter as data.
pub mod Allowed
use telar.Prelude.{
  ℕ, ◌-◌, String, Bool, true, false, not, ◌&&◌, ◌||◌, Option, none, some, List, [], ◌∷◌, ◌++◌, any,
  length, drop, str_eq, ◌==◌, if◌then◌else◌,
}
use telar.Text.{codes}

-- `@import(...)` or `@cInclude(...)`, and its argument if that is a literal.
pub record Call : Type 0 where
  pub is_import : Bool
  pub argument : Option String

-- A source file: whether it resolves to a path in the package, whether it resolves to another path,
-- and its calls, or none if it cannot be decoded.
pub record Source : Type 0 where
  pub name : String
  pub in_package : Bool
  pub is_alias : Bool
  pub calls : Option (List Call)

pub data Violation : Type 0 where
  source_leaves source_aliases not_literal : String → Violation
  forbidden_header forbidden_module import_leaves missing_import : String → String → Violation

abbrev pub allowed_modules : List String
allowed_modules = "std" ∷ "builtin" ∷ "model" ∷ "telar-core" ∷ "telar-lua" ∷ "lua-api" ∷ []

abbrev pub native_headers : List (String × String)
native_headers = ("graphics/store.zig", "sys/stat.h") ∷ ("resources/local_time.zig", "time.h") ∷ []

-- What `calls` yields, and whether it raises in the end.
unfoldable pub calls_of : Bool → List Call → List String × Bool
calls_of import [] = ([], false)
calls_of import (call ∷ calls) =
    let (found, raised) = calls_of import calls in
    if (call.is_import && import) || (not call.is_import && not import)
    then elim call.argument [ none ↦ ([], true) | some argument ↦ (argument ∷ found, raised) ]
    else (found, raised)

abbrev same_codes : List ℕ → List ℕ → Bool
same_codes [] [] = true
same_codes (a ∷ as') (b ∷ bs) = (a == b) && same_codes as' bs
same_codes _ _ = false

-- `imported.endswith(".zig")`
unfoldable pub is_zig : String → Bool
is_zig text = same_codes (drop (length (codes text) - 4) (codes text)) (codes ".zig")

abbrev first_is : ℕ → List ℕ → Bool
first_is mark [] = false
first_is mark (c ∷ cs) = c == mark

abbrev pub is_absolute : String → Bool
is_absolute text = first_is b'/' (codes text)

abbrev pub is_native : String → String → Bool
is_native name header =
    any (λ (p : String × String). str_eq p.0 name && str_eq p.1 header) native_headers

unfoldable pub header_errors : String → List String → List Violation
header_errors name [] = []
header_errors name (header ∷ headers) =
    let rest = header_errors name headers in
    if is_native name header then rest else Violation.forbidden_header name header ∷ rest

-- `resolve` gives the path in the package that an import of a file leads to, if it stays inside.
module _ (resolve : String → String → Option String) (libraries files : List String) where
  abbrev pub file_error : String → String → Option String → List Violation
  file_error name imported none = Violation.import_leaves name imported ∷ []
  file_error name imported (some path) =
      if any (str_eq path) files then [] else Violation.missing_import name imported ∷ []

  unfoldable pub import_error : String → String → List Violation
  unfolding is_zig
  import_error name imported =
      if not (is_zig imported)
      then (if any (str_eq imported) allowed_modules || any (str_eq imported) libraries
          then []
          else Violation.forbidden_module name imported ∷ [])
      else if is_absolute imported
      then Violation.import_leaves name imported ∷ []
      else file_error name imported (resolve name imported)

  unfoldable pub import_errors : String → List String → List Violation
  unfolding import_error
  import_errors name [] = []
  import_errors name (imported ∷ paths) = import_error name imported ++ import_errors name paths

  -- The imports are listed first; a header that is no literal keeps the errors before it.
  unfoldable pub call_errors : String → List Call → List Violation
  unfolding calls_of header_errors import_errors
  call_errors name calls =
      let paths = calls_of true calls in
      let headers = calls_of false calls in
      if paths.1
      then Violation.not_literal name ∷ []
      else header_errors name headers.0
        ++ (if headers.1 then Violation.not_literal name ∷ [] else import_errors name paths.0)

  unfoldable pub source_errors : Source → List Violation
  unfolding call_errors
  source_errors source =
      if not source.in_package
      then Violation.source_leaves source.name ∷ []
      else if source.is_alias
      then Violation.source_aliases source.name ∷ []
      else elim source.calls [
        | none ↦ Violation.not_literal source.name ∷ []
        | some calls ↦ call_errors source.name calls
      ]

  -- The exit status is 1 where this holds anything.
  unfoldable pub violations : List Source → List Violation
  unfolding source_errors
  violations [] = []
  violations (source ∷ sources) = source_errors source ++ violations sources
