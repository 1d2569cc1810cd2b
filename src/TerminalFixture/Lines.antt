-- ===== src/TerminalFixture/Lines.antt =====
-- The lines of a payload, as they are spelled, and how many fit.
use telar.Text.{codes}
use mathlib.Core.List.{append_assoc}
use mathlib.Core.Path.{ap₂}
use telar.Prelude.{
  refl, eq_iff, if◌then◌else◌, ℕ, zero, suc, ◌+◌, ◌-◌, ◌*◌, ◌/◌, ◌%◌, ◌≤◌, ◌≡◌, sym, ap, ◌∙◌,
  String, Bool, true, false, not, ◌||◌, inl, inr, List, [], ◌∷◌, ◌++◌, length, take, length-append,
  length-take, str_eq, ◌==◌, Bool-cases, arith,
}
use telar.Prelude.Result.{ok, ok-injective}
use telar.TerminalFixture.{
  repeat, payload_line, prefix_of, suffix_of, variable_line, variable_lines, chunk_of,
}

length-repeat :
    (count : ℕ) (line : List ℕ) → length line ≡ 64 → length (repeat count line) ≡ count * 64
length-repeat zero line h = omega arith
length-repeat (suc count) line h =
    omega (arith, h, length-append line (repeat count line), length-repeat count line h)

length-payload_line :
    (name : String) (line : List ℕ) → payload_line name ≡ ok line → length line ≡ 64
unfolding payload_line
length-payload_line name line h = elim (Bool-cases (str_eq name "ascii")) [
  | inl e ↦ ap length (sym (ok-injective (rw (e, payload_line) at h)))
  | inr e ↦ elim (Bool-cases (str_eq name "ansi")) [
    | inl e' ↦ ap length (sym (ok-injective (rw (e, e', payload_line) at h)))
    | inr e' ↦ cc (rw (e, e', payload_line) at h)
  ]
]

pub whole_total : (total : ℕ) → (total == 0 || not (total % 64 == 0)) ≡ false → total % 64 ≡ 0
whole_total total h = ground (arith, h)

pub from_zero : (total : ℕ) → total - 0 ≡ total
from_zero total = omega arith

abbrev pub sum_lengths : List (List ℕ) → ℕ
sum_lengths [] = 0
sum_lengths (chunk ∷ chunks) = length chunk + sum_lengths chunks

abbrev pub join : List (List ℕ) → List ℕ
join [] = []
join (chunk ∷ chunks) = chunk ++ join chunks

-- `count` lines from an index on, joined.
abbrev pub lines_from : (ℕ → List ℕ) → ℕ → ℕ → List ℕ
lines_from line index zero = []
lines_from line index (suc count) = line index ++ lines_from line (suc index) count

pub lines_from-add :
    (line : ℕ → List ℕ) (index a b : ℕ)
    → lines_from line index a ++ lines_from line (index + a) b ≡ lines_from line index (a + b)
lines_from-add line index zero b =
    ap (λ i. lines_from line i b) (plus_zero index) ∙ ap (lines_from line index) (zero_plus b)
  where
    plus_zero : (k : ℕ) → k + 0 ≡ k
    plus_zero k = omega arith

    zero_plus : (k : ℕ) → k ≡ 0 + k
    zero_plus k = omega arith
lines_from-add line index (suc a) b =
    append_assoc (line index) (lines_from line (suc index) a) (lines_from line (index + suc a) b)
    ∙ ap (λ i. line index ++ (lines_from line (suc index) a ++ lines_from line i b)) (shift index a)
    ∙ ap (λ l. line index ++ l) (lines_from-add line (suc index) a b)
    ∙ ap (lines_from line index) (suc_plus a b)
  where
    shift : (i k : ℕ) → i + suc k ≡ suc i + k
    shift i k = omega arith

    suc_plus : (k m : ℕ) → suc (k + m) ≡ suc k + m
    suc_plus k m = omega arith

take-append : (xs ys : List ℕ) (k : ℕ) → take (length xs + k) (xs ++ ys) ≡ xs ++ take k ys
take-append [] ys k = ap (λ m. take m ys) (zero_left k)
  where
    zero_left : (k : ℕ) → 0 + k ≡ k
    zero_left k = omega arith
take-append (x ∷ xs) ys k =
    ap (λ m. take m (x ∷ xs ++ ys)) (suc_left (length xs) k) ∙ ap (λ l. x ∷ l) (take-append xs ys k)
  where
    suc_left : (a b : ℕ) → suc a + b ≡ suc (a + b)
    suc_left a b = omega arith

-- The first lines of a line that is repeated.
take-repeat :
    (line : List ℕ) (index k m : ℕ)
    → length line ≡ 64
    → k ≤ m
    → take (k * 64) (repeat m line) ≡ lines_from (λ i. line) index k
take-repeat line index zero m h le = refl
take-repeat line index (suc k) zero h le = absurd (omega (arith, le))
take-repeat line index (suc k) (suc m) h le =
    ap (λ size. take size (line ++ repeat m line)) (first_line (length line) k h)
    ∙ take-append line (repeat m line) (k * 64)
    ∙ ap (λ l. line ++ l) (take-repeat line (suc index) k m h (omega (arith, le)))
  where
    first_line : (size k : ℕ) → size ≡ 64 → suc k * 64 ≡ size + k * 64
    first_line size k h = omega (arith, h)

module _ (hex_digest : ℕ → List ℕ) (hex_64 : (index : ℕ) → length (hex_digest index) ≡ 64) where
  length-framed :
      (before text behind : List ℕ)
      → length before + length behind ≤ 64
      → length text ≡ 64
      → length (before ++ take (64 - length before - length behind) text ++ behind) ≡ 64
  length-framed before text behind fits h = omega (
    arith,
    fits,
    h,
    length-append (before ++ take (64 - length before - length behind) text) behind,
    length-append before (take (64 - length before - length behind) text),
    length-take (64 - length before - length behind) text,
  )

  fits_in : (name : String) → length (prefix_of name) + length (suffix_of name) ≤ 64
  fits_in name = elim (Bool-cases (str_eq name "ansi")) [
    | inl e ↦ rw e (omega arith)
    | inr e ↦ rw e (omega arith)
  ]

  length-variable_line :
      (name : String) (index : ℕ) → length (variable_line hex_digest name index) ≡ 64
  unfolding variable_line
  length-variable_line name index =
      length-framed (prefix_of name) (hex_digest index) (suffix_of name) (fits_in name)
        (hex_64 index)

  length-variable_lines :
      (name : String) (index count : ℕ)
      → length (variable_lines hex_digest name index count) ≡ count * 64
  unfolding variable_lines
  length-variable_lines name index zero = omega arith
  length-variable_lines name index (suc count) = omega (
    arith,
    length-append (variable_line hex_digest name index)
        (variable_lines hex_digest name (suc index) count),
    length-variable_line name index,
    length-variable_lines name (suc index) count,
  )

  length-chunk_of :
      (name : String) (repeated : Bool) (whole : List ℕ) (offset size : ℕ)
      → length whole ≡ 65536
      → size ≤ 65536
      → offset % 64 ≡ 0
      → size % 64 ≡ 0
      → length (chunk_of hex_digest name repeated whole offset size) ≡ size
  length-chunk_of name true whole offset size w s o m = omega (arith, length-take size whole, w, s)
  length-chunk_of name false whole offset size w s o m =
      length-variable_lines name (offset / 64) ((offset + size) / 64 - offset / 64)
      ∙ omega (arith, o, m)

  -- A line of 64 bytes, of the text that is repeated or of the digest of its index, as they are
  -- spelled for each payload.
  abbrev pub spelled_line : String → Bool → ℕ → List ℕ
  spelled_line name repeated index =
      if str_eq name "ascii"
      then (if repeated
          then codes "abcdefghijklmnopqrstuvwxyzABCDEFGHIJKLMNOPQRSTUVWXYZ0123456789"
          else take 62 (hex_digest index))
        ++ 13 ∷ 10 ∷ []
      else (27 ∷ codes "[38;2;180;180;180m")
        ++ (if repeated
            then codes "benchmark text benchmark text benchmark"
            else take 39 (hex_digest index))
        ++ (27 ∷ codes "[0m" ++ 13 ∷ 10 ∷ [])

  not_ansi : (name : String) → str_eq name "ascii" ≡ true → str_eq name "ansi" ≡ false
  not_ansi name e = rw ((eq_iff name "ascii").0 e) refl

  -- The line of a payload that exists.
  payload_line-spelled :
      (name : String) (line : List ℕ)
      → payload_line name ≡ ok line
      → (index : ℕ) → line ≡ spelled_line name true index
  unfolding payload_line
  payload_line-spelled name line h index = elim (Bool-cases (str_eq name "ascii")) [
    | inl e ↦ rw e (sym (ok-injective (rw (e, payload_line) at h)))
    | inr e ↦ elim (Bool-cases (str_eq name "ansi")) [
      | inl e' ↦ rw e (sym (ok-injective (rw (e, e', payload_line) at h)))
      | inr e' ↦ cc (rw (e, e', payload_line) at h)
    ]
  ]

  variable_line-spelled :
      (name : String) (line : List ℕ)
      → payload_line name ≡ ok line
      → (index : ℕ) → variable_line hex_digest name index ≡ spelled_line name false index
  unfolding payload_line variable_line
  variable_line-spelled name line h index = elim (Bool-cases (str_eq name "ascii")) [
    | inl e ↦ rw (e, not_ansi name e, variable_line) refl
    | inr e ↦ elim (Bool-cases (str_eq name "ansi")) [
      | inl e' ↦ rw (e, e', variable_line) refl
      | inr e' ↦ cc (rw (e, e', payload_line) at h)
    ]
  ]

  variable_lines-spelled :
      (name : String) (line : List ℕ)
      → payload_line name ≡ ok line
      → (index count : ℕ)
      → variable_lines hex_digest name index count
        ≡ lines_from (spelled_line name false) index count
  unfolding variable_lines
  variable_lines-spelled name line h index zero = refl
  variable_lines-spelled name line h index (suc count) =
      ap₂ (λ a b. a ++ b) (variable_line-spelled name line h index)
        (variable_lines-spelled name line h (suc index) count)

  lines_from-same :
      (f g : ℕ → List ℕ)
      → ((i : ℕ) → f i ≡ g i)
      → (index count : ℕ) → lines_from f index count ≡ lines_from g index count
  lines_from-same f g same index zero = refl
  lines_from-same f g same index (suc count) =
      ap₂ (λ a b. a ++ b) (same index) (lines_from-same f g same (suc index) count)

  -- A chunk of `count` lines.
  pub chunk_of-spelled :
      (name : String) (line : List ℕ)
      → payload_line name ≡ ok line
      → (repeated : Bool) (index count : ℕ) → count ≤ 1024
      → chunk_of hex_digest name repeated (repeat 1024 line) (index * 64) (count * 64)
        ≡ lines_from (spelled_line name repeated) index count
  chunk_of-spelled name line h true index count few =
      take-repeat line index count 1024 (length-payload_line name line h) few
      ∙ lines_from-same (λ i. line) (spelled_line name true) (payload_line-spelled name line h)
          index count
  chunk_of-spelled name line h false index count few =
      ap₂ (variable_lines hex_digest name) (whole_index index) (whole_count index count)
      ∙ variable_lines-spelled name line h index count
    where
      whole_index : (i : ℕ) → i * 64 / 64 ≡ i
      whole_index i = omega arith

      whole_count : (i k : ℕ) → (i * 64 + k * 64) / 64 - i * 64 / 64 ≡ k
      whole_count i k = omega arith

  pub length-spelled :
      (name : String) (line : List ℕ)
      → payload_line name ≡ ok line
      → (repeated : Bool) (index count : ℕ)
      → length (lines_from (spelled_line name repeated) index count) ≡ count * 64
  length-spelled name line h repeated index zero = omega arith
  length-spelled name line h repeated index (suc count) = omega (
    arith,
    length-append (spelled_line name repeated index)
        (lines_from (spelled_line name repeated) (suc index) count),
    one repeated,
    length-spelled name line h repeated (suc index) count,
  )
    where
      one : (b : Bool) → length (spelled_line name b index) ≡ 64
      one true =
          ap length (sym (payload_line-spelled name line h index)) ∙ length-payload_line name line h
      one false =
          ap length (sym (variable_line-spelled name line h index))
          ∙ length-variable_line name index
