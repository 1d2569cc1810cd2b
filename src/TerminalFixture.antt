-- ===== src/TerminalFixture.antt =====
-- tools/terminal_bench_fixture.py: what the workload writes, how it is paced, and its marker.
-- Bytes are numbers.
pub mod Write
pub mod Lines
pub mod Payload
pub mod Blocks
pub mod Keys
use telar.Prelude.{
  ℕ, zero, suc, ◌+◌, ◌-◌, ◌*◌, ◌/◌, ◌%◌, min, max, String, Bool, true, false, not, ◌&&◌, ◌||◌,
  Option, none, some, List, [], ◌∷◌, ◌++◌, length, take, drop, ltb, leb, str_eq, ◌==◌,
  if◌then◌else◌,
}
use telar.Prelude.Result.{Result, ok, err, Exception, value_error, raise_if, or_raise, ◌>>=◌, ◌>>◌}
use telar.Text.{codes}
use telar.Number.{Number}

abbrev pub payload_bytes : ℕ
payload_bytes = 8388608

abbrev pub chunk_bytes : ℕ
chunk_bytes = 65536

abbrev pub line_bytes : ℕ
line_bytes = 64

pub data WriteError : Type 0 where
  os_error broken_pipe out_of_fuel : WriteError

-- `os.write` is the world's: at each call it takes some of the bytes, or fails.
module _ (os_write : ℕ → List ℕ → Option ℕ) where
  -- The bytes written, and the error that ended the loop, if any.
  unfoldable pub write_loop : ℕ → ℕ → List ℕ → List ℕ → List ℕ × Option WriteError
  write_loop fuel call written [] = (written, none)
  write_loop zero call written (b ∷ pending) = (written, some out_of_fuel)
  write_loop (suc fuel) call written (b ∷ pending) = elim (os_write call (b ∷ pending)) [
    | none ↦ (written, some os_error)
    | some sent ↦ elim sent [
      | zero ↦ (written, some broken_pipe)
      | suc less ↦ write_loop fuel (suc call) (written ++ b ∷ take less pending) (drop less pending)
    ]
  ]

  -- Each turn writes at least one byte.
  unfoldable pub write_all : List ℕ → List ℕ × Option WriteError
  unfolding write_loop
  write_all bytes = write_loop (length bytes) 0 [] bytes

abbrev pub repeat : ℕ → List ℕ → List ℕ
repeat zero line = []
repeat (suc count) line = line ++ repeat count line

abbrev pub newline : List ℕ
newline = 13 ∷ 10 ∷ []

abbrev pub ansi_prefix : List ℕ
ansi_prefix = 27 ∷ codes "[38;2;180;180;180m"

abbrev pub ansi_suffix : List ℕ
ansi_suffix = 27 ∷ codes "[0m" ++ newline

abbrev pub ascii_line : List ℕ
ascii_line = codes "abcdefghijklmnopqrstuvwxyzABCDEFGHIJKLMNOPQRSTUVWXYZ0123456789" ++ newline

abbrev pub ansi_line : List ℕ
ansi_line =
    take (line_bytes - length ansi_suffix) (ansi_prefix ++ repeat 4 (codes "benchmark text "))
    ++ ansi_suffix

-- The line that a payload repeats.
unfoldable pub payload_line : String → Result Exception (List ℕ)
payload_line name =
    if str_eq name "ascii"
    then ok ascii_line
    else if str_eq name "ansi"
    then ok ansi_line
    else err value_error

unfoldable pub payload_chunk : String → Result Exception (List ℕ)
unfolding payload_line
payload_chunk name = do line ← payload_line name; ok (repeat (chunk_bytes / line_bytes) line)

abbrev pub prefix_of : String → List ℕ
prefix_of name = if str_eq name "ansi" then ansi_prefix else []

abbrev pub suffix_of : String → List ℕ
suffix_of name = if str_eq name "ansi" then ansi_suffix else newline

-- The hexadecimal SHA-256 of `telar-bench:{index}` is a parameter.
module _ (hex_digest : ℕ → List ℕ) where
  unfoldable pub variable_line : String → ℕ → List ℕ
  variable_line name index =
      let text_bytes = line_bytes - length (prefix_of name) - length (suffix_of name) in
      prefix_of name ++ take text_bytes (hex_digest index) ++ suffix_of name

  -- `count` lines from `index` on, joined.
  unfoldable pub variable_lines : String → ℕ → ℕ → List ℕ
  unfolding variable_line
  variable_lines name index zero = []
  variable_lines name index (suc count) =
      variable_line name index ++ variable_lines name (suc index) count

  abbrev pub chunk_of : String → Bool → List ℕ → ℕ → ℕ → List ℕ
  chunk_of name repeated whole offset size =
      if repeated
      then take size whole
      else variable_lines name (offset / line_bytes)
          ((offset + size) / line_bytes - offset / line_bytes)

  -- `for offset in range(0, total_bytes, CHUNK_BYTES)`
  unfoldable pub chunks_from : ℕ → String → Bool → List ℕ → ℕ → ℕ → List (List ℕ)
  unfolding variable_lines
  chunks_from zero name repeated whole offset total = []
  chunks_from (suc fuel) name repeated whole offset total =
      let rest = chunks_from fuel name repeated whole (offset + chunk_bytes) total in
      if ltb offset total
      then chunk_of name repeated whole offset (min chunk_bytes (total - offset)) ∷ rest
      else []

  -- Each turn moves the offset by a chunk.
  unfoldable pub payload_chunks : String → String → ℕ → Result Exception (List (List ℕ))
  unfolding payload_chunk chunks_from
  payload_chunks name pattern_name total = do
    raise_if (not (str_eq pattern_name "repeat") && not (str_eq pattern_name "variable"))
        value_error
    raise_if (total == 0 || not (total % line_bytes == 0)) value_error
    whole ← payload_chunk name
    ok (chunks_from (suc (total / chunk_bytes)) name (str_eq pattern_name "repeat") whole 0 total)

module _ (n : Number) where
  open n use {Num, of_nat, mul, div, add, lt, trunc}

  -- `OutputPacer`
  pub record Pacer : Type 0 where
    pub bytes_per_second : Num
    pub block_bytes : ℕ
    pub deadline : Num

  -- The tick is 0.005 s; `now` is `time.monotonic()`.
  unfoldable pub new_pacer : Num → Num → Pacer
  new_pacer mib_per_second now =
      let rate = mul (mul mib_per_second (of_nat 1024)) (of_nat 1024) in
      record {
        bytes_per_second = rate;
        block_bytes = min chunk_bytes (
            max line_bytes
              (trunc (mul rate (div (of_nat 5) (of_nat 1000))) / line_bytes * line_bytes));
        deadline = now;
      }

  unfoldable pub advance : Pacer → ℕ → Num → Pacer
  advance pacer emitted now =
      let interval = div (of_nat emitted) pacer.bytes_per_second in
      let next = add pacer.deadline interval in
      record pacer { deadline = (if lt now next then next else add now interval) }

-- `for offset in range(0, len(chunk), block_bytes)`
unfoldable pub blocks : ℕ → ℕ → List ℕ → List (List ℕ)
blocks fuel size [] = []
blocks zero size (b ∷ chunk) = []
blocks (suc fuel) size (b ∷ chunk) =
    take size (b ∷ chunk) ∷ blocks fuel size (drop size (b ∷ chunk))

pub record Marker : Type 0 where
  pub primary : Bool
  pub color : ℕ
  pub marker_inputs : ℕ
  pub drawn : List ℕ

-- One key of the final loop: `x` turns the color, which is 0 or 1 (`color ^= 1`), `x` and `r` draw the marker.
unfoldable pub press : Marker → ℕ → Marker
press m key =
    if m.primary && key == b'x'
    then record m {
      color = 1 - m.color;
      marker_inputs = suc m.marker_inputs;
      drawn = m.drawn ++ (1 - m.color) ∷ [];
    }
    else if m.primary && key == b'r'
    then record m { drawn = m.drawn ++ m.color ∷ [] }
    else m

unfoldable pub press_all : Marker → List ℕ → Marker
unfolding press
press_all m [] = m
press_all m (key ∷ keys) = press_all (press m key) keys
