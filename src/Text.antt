-- ===== src/Text.antt =====
-- The methods of Python's `str` that the tools use, over native texts. What the interpreter's
-- Unicode tables say of code points beyond ASCII is a parameter.
pub mod Format
pub mod Partition
use Prim.Native.Char.{code}
use telar.Prelude.{
  ℕ, ◌+◌, ◌-◌, ◌*◌, String, Bool, true, false, ◌&&◌, ◌||◌, Option, none, some, List, [], ◌∷◌,
  reverse, ltb, leb, ◌==◌, if◌then◌else◌,
}
use telar.Prelude.Int.{ℤ, pos, sub_ℕ}

pub record Unicode : Type 0 where
  pub alnum : ℕ → Bool
  pub digit : ℕ → Option ℕ
  pub space : ℕ → Bool

-- The code points of a text.
abbrev pub codes : String → List ℕ
codes String.[] = []
codes (String.◌∷◌ c s) = code c ∷ codes s

abbrev pub is_empty : String → Bool
is_empty String.[] = true
is_empty (String.◌∷◌ c s) = false

-- `text.partition(mark)` for a one-character mark: what stands before the first mark, whether
-- there is one, and what stands behind it.
unfoldable pub partition : ℕ → String → String × Bool × String
partition mark String.[] = ("", false, "")
partition mark (String.◌∷◌ c s) =
    let (before, found, behind) = partition mark s in
    if code c == mark then ("", true, s) else (String.◌∷◌ c before, found, behind)

-- The six ASCII characters that `int` strips.
abbrev ascii_space : ℕ → Bool
ascii_space c = c == 32 || (leb 9 c && leb c 13)

abbrev ascii_digit : ℕ → Bool
ascii_digit c = leb b'0' c && leb c b'9'

abbrev ascii_letter : ℕ → Bool
ascii_letter c = (leb b'a' c && leb c b'z') || (leb b'A' c && leb c b'Z')

-- Digits beyond this number are refused by `int`.
abbrev pub max_str_digits : ℕ
max_str_digits = 4300

module _ (uni : Unicode) where
  open uni use {alnum, digit, space}

  unfoldable pub is_alnum : ℕ → Bool
  is_alnum c = if ltb c 128 then ascii_digit c || ascii_letter c else alnum c

  abbrev all_alnum : List ℕ → Bool
  all_alnum [] = true
  all_alnum (c ∷ cs) = is_alnum c && all_alnum cs

  -- `text.isalnum()`: false on the empty text.
  unfoldable pub isalnum : List ℕ → Bool
  unfolding is_alnum
  isalnum [] = false
  isalnum (c ∷ cs) = all_alnum (c ∷ cs)

  unfoldable pub is_space : ℕ → Bool
  is_space c = ascii_space c || (if ltb c 128 then false else space c)

  unfoldable pub digit_value : ℕ → Option ℕ
  digit_value c = if ltb c 128 then (if ascii_digit c then some (c - b'0') else none) else digit c

  lstrip : List ℕ → List ℕ
  unfolding is_space
  lstrip [] = []
  lstrip (c ∷ cs) = let rest = lstrip cs in if is_space c then rest else c ∷ cs

  unfoldable pub strip : List ℕ → List ℕ
  unfolding lstrip
  strip cs = reverse (lstrip (reverse (lstrip cs)))

  -- One character of a literal: whether the last one was a digit, the value and the digits so far.
  literal_step : Bool → ℕ → ℕ → ℕ → Option (Bool × ℕ × ℕ)
  unfolding digit_value
  literal_step last value count c =
      if c == b'_'
      then (if last then some (false, value, count) else none)
      else elim (digit_value c) [ none ↦ none | some d ↦ some (true, value * 10 + d, count + 1) ]

  -- The digits of a literal, with single underscores between them.
  literal : Bool → ℕ → ℕ → List ℕ → Option ℕ
  unfolding literal_step
  literal last value count [] = if last && leb count max_str_digits then some value else none
  literal last value count (c ∷ cs) = elim (literal_step last value count c) [
    | none ↦ none
    | some (last', value', count') ↦ literal last' value' count' cs
  ]

  signed : List ℕ → Option ℤ
  unfolding literal
  signed [] = none
  signed (c ∷ cs) =
      if c == b'-'
      then elim (literal false 0 0 cs) [ none ↦ none | some n ↦ some (sub_ℕ 0 n) ]
      else if c == b'+'
      then elim (literal false 0 0 cs) [ none ↦ none | some n ↦ some (pos n) ]
      else elim (literal false 0 0 (c ∷ cs)) [ none ↦ none | some n ↦ some (pos n) ]

  -- `int(text)`: `none` is its `ValueError`.
  unfoldable pub parse_int : List ℕ → Option ℤ
  unfolding strip signed
  parse_int cs = signed (strip cs)
