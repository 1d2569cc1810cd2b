-- ===== src/Text/Format.antt =====
-- The texts that Python's f-strings, `str.join`, `str(n)` and `str.splitlines` build.
use telar.Text.{is_empty, is_space, Unicode}
use Prim.Native.Char.{Char, code}
use Prim.Native.String.{◌++◌ as text_append}
use telar.Prelude.{
  true, leb, ◌&&◌, ℕ, zero, suc, ◌+◌, ◌/◌, ◌%◌, String, List, [], ◌∷◌, ltb, ◌==◌, ◌||◌, Bool, false,
  if◌then◌else◌,
}

-- An f-string: its pieces one after another.
unfoldable pub concat : List String → String
concat [] = ""
concat (s ∷ pieces) = text_append s (concat pieces)

-- `mark.join(words)`
unfoldable pub join : String → List String → String
join mark [] = ""
join mark (w ∷ []) = w
join mark (w ∷ v ∷ words) = text_append w (text_append mark (join mark (v ∷ words)))

abbrev digit_char : ℕ → Char
digit_char n =
    if n == 0
    then "0"
    else if n == 1
    then "1"
    else if n == 2
    then "2"
    else if n == 3
    then "3"
    else if n == 4
    then "4"
    else if n == 5
    then "5"
    else if n == 6
    then "6"
    else if n == 7
    then "7"
    else if n == 8
    then "8"
    else "9"

-- The digits of a number in front of a text; a number has fewer digits than `n + 1`.
unfoldable pub digits_before : ℕ → ℕ → String → String
digits_before zero n behind = behind
digits_before (suc fuel) n behind =
    let more = digits_before fuel (n / 10) (String.◌∷◌ (digit_char (n % 10)) behind) in
    if ltb n 10 then String.◌∷◌ (digit_char n) behind else more

-- `str(n)`
unfoldable pub decimal : ℕ → String
unfolding digits_before
decimal n = digits_before (n + 1) n ""

-- Where `splitlines` ends a line, besides `"\r\n"`.
abbrev is_line_end : ℕ → Bool
is_line_end c =
    c == 10
    || c == 11
    || c == 12
    || c == 13
    || c == 28
    || c == 29
    || c == 30
    || c == 0x85
    || c == 0x2028
    || c == 0x2029

abbrev begin_line : Char → List String → List String
begin_line c [] = String.◌∷◌ c "" ∷ []
begin_line c (line ∷ lines) = String.◌∷◌ c line ∷ lines

-- The lines of a text; `after_return` says that the last character was a `"\r"`, whose `"\n"` ends no further line.
abbrev split_from : Bool → String → List String
split_from after_return String.[] = []
split_from after_return (String.◌∷◌ c s) =
    let ended = "" ∷ split_from (code c == 13) s in
    let paired = split_from false s in
    let inside = begin_line c (split_from false s) in
    if after_return && code c == 10 then paired else if is_line_end (code c) then ended else inside

-- `text.splitlines()`
unfoldable pub splitlines : String → List String
splitlines s = split_from false s

-- Whether a character stands in a text.
unfoldable pub contains : ℕ → String → Bool
contains mark String.[] = false
contains mark (String.◌∷◌ c s) = code c == mark || contains mark s

-- `text.rsplit(mark, 1)[1]` for a text that holds the one-character mark: what follows its last
-- occurrence.
unfoldable pub after_last : ℕ → String → String
unfolding contains
after_last mark String.[] = ""
after_last mark (String.◌∷◌ c s) =
    let later = after_last mark s in if contains mark s then later else s

-- `text.rstrip()` and `text.strip()`, with the interpreter's white space.
unfoldable pub rstrip : Unicode → String → String
rstrip uni String.[] = ""
rstrip uni (String.◌∷◌ c s) =
    let rest = rstrip uni s in
    if is_empty rest && is_space uni (code c) then "" else String.◌∷◌ c rest

abbrev lstrip_text : Unicode → String → String
lstrip_text uni String.[] = ""
lstrip_text uni (String.◌∷◌ c s) =
    let rest = lstrip_text uni s in if is_space uni (code c) then rest else String.◌∷◌ c s

unfoldable pub strip_text : Unicode → String → String
unfolding rstrip is_space
strip_text uni s = rstrip uni (lstrip_text uni s)

-- What `shlex.quote` leaves as it is.
abbrev is_shell_safe : ℕ → Bool
is_shell_safe c =
    (leb b'0' c && leb c b'9')
    || (leb b'A' c && leb c b'Z')
    || (leb b'a' c && leb c b'z')
    || contains c "_@%+=:,./-"

unfoldable pub all_shell_safe : String → Bool
unfolding contains
all_shell_safe String.[] = true
all_shell_safe (String.◌∷◌ c s) = is_shell_safe (code c) && all_shell_safe s

-- A single quote stands between double quotes, outside the single ones.
unfoldable pub escape_quotes : String → String
escape_quotes String.[] = ""
escape_quotes (String.◌∷◌ c s) =
    let rest = escape_quotes s in
    if code c == 39 then text_append "'\"'\"'" rest else String.◌∷◌ c rest

-- `shlex.quote(word)`
unfoldable pub quote : String → String
unfolding all_shell_safe escape_quotes
quote word =
    if is_empty word
    then "''"
    else if all_shell_safe word
    then word
    else text_append "'" (text_append (escape_quotes word) "'")
