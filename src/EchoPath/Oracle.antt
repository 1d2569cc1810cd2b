-- ===== src/EchoPath/Oracle.antt =====
-- `Oracle` of tools/echo_path.py: the process that keeps the screen, which is sent frames of bytes and
-- answers each with two numbers.
use telar.EchoPath.{
  PathError, eof_error, timeout_error, runtime_error, struct_error, os_error, out_of_fuel,
}
use telar.Prelude.{
  ℕ, zero, suc, ◌+◌, ◌-◌, ◌*◌, ◌/◌, ◌%◌, ◌^◌, Bool, Option, none, some, List, [], ◌∷◌, ◌++◌, length,
  take, drop, ltb, leb, if◌then◌else◌,
}
use telar.Prelude.Result.{Result, ok, err}

-- What `stdin.write` does: it takes some bytes, or none for now, or raises.
pub data Written : Type 0 where
  took : ℕ → Written
  nothing refused : Written

-- The pipes of the process, at each call.
pub record Probe : Type 0 where
  pub write : ℕ → List ℕ → Written
  -- Its output can be read within two seconds.
  pub is_ready : ℕ → Bool
  -- What it has put out, of which `read` returns as much as it was asked for at most.
  pub output : ℕ → List ℕ

-- The fields of `Oracle`, the bytes that the process was sent and the calls made.
pub record Oracle : Type 0 where
  pub count : ℕ
  pub synchronized : ℕ
  pub wrote : List ℕ
  pub calls : ℕ

abbrev pub Outcome : Type 0 → Type 0
Outcome A = Oracle × Result PathError A

-- The lowest byte first.
unfoldable pub pack_bytes : ℕ → ℕ → List ℕ
pack_bytes zero value = []
pack_bytes (suc width) value = value % 256 ∷ pack_bytes width (value / 256)

unfoldable pub unpack_bytes : List ℕ → ℕ
unpack_bytes [] = 0
unpack_bytes (b ∷ bytes) = b + 256 * unpack_bytes bytes

-- `struct.pack('<I', len(data)) + data`
unfoldable pub frame : List ℕ → Option (List ℕ)
unfolding pack_bytes
frame bytes =
    if ltb (length bytes) (2 ^ 32) then some (pack_bytes 4 (length bytes) ++ bytes) else none

module _ (probe : Probe) where
  open probe use {write, is_ready, output}

  abbrev pub called : Oracle → Oracle
  called o = record o { calls = suc o.calls }

  -- `while pending`: each turn writes at least one byte.
  unfoldable pub write_pending : ℕ → List ℕ → Oracle → Outcome (Unit {0})
  write_pending fuel [] o = (o, ok tt)
  write_pending zero (b ∷ pending) o = (o, err out_of_fuel)
  write_pending (suc fuel) (b ∷ pending) o = elim (write o.calls (b ∷ pending)) [
    | refused ↦ (called o, err os_error)
    | nothing ↦ (called o, err eof_error)
    | took written ↦ elim written [
      | zero ↦ (called o, err eof_error)
      | suc less ↦
          write_pending fuel (drop less pending)
            (record o { wrote = o.wrote ++ b ∷ take less pending; calls = suc o.calls })
    ]
  ]

  -- `while len(reply) < 8`: each turn reads at least one byte.
  unfoldable pub read_reply : ℕ → List ℕ → Oracle → Outcome (List ℕ)
  read_reply zero reply o = if leb 8 (length reply) then (o, ok reply) else (o, err out_of_fuel)
  read_reply (suc fuel) reply o =
      let part = take (8 - length reply) (output o.calls) in
      let later = read_reply fuel (reply ++ part) (called o) in
      if leb 8 (length reply)
      then (o, ok reply)
      else if is_ready o.calls
      then elim part [ [] ↦ (called o, err runtime_error) | b ∷ bytes ↦ later ]
      else (called o, err timeout_error)

  -- `struct.unpack('<II', reply)`
  abbrev pub note_reply : Outcome (List ℕ) → Outcome (Unit {0})
  note_reply (o, err e) = (o, err e)
  note_reply (o, ok reply) = (
    record o { count = unpack_bytes (take 4 reply); synchronized = unpack_bytes (drop 4 reply) },
    ok tt,
  )

  abbrev pub then_read : Outcome (Unit {0}) → Outcome (Unit {0})
  then_read (o, err e) = (o, err e)
  then_read (o, ok sent) = note_reply (read_reply 8 [] o)

  abbrev pub feed_frame : Option (List ℕ) → Oracle → Outcome (Unit {0})
  feed_frame none o = (o, err struct_error)
  feed_frame (some bytes) o = then_read (write_pending (length bytes) bytes o)

  unfoldable pub feed : List ℕ → Oracle → Outcome (Unit {0})
  unfolding frame write_pending read_reply unpack_bytes
  feed bytes o = feed_frame (frame bytes) o
