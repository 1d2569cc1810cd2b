-- ===== src/Tests/TerminalFixture.antt =====
-- A system that takes two bytes at a time and fails at the third call, two variable lines, and keys.
use telar.Prelude.{
  false, ◌*◌, ◌==◌, if◌then◌else◌, ℕ, List, [], ◌∷◌, Option, none, some, refl, All, ◌≡◌, ◌%◌, ◌≤◌,
  length, true,
}
use telar.Prelude.Int.{pos}
use telar.TerminalFixture.{
  variable_lines, os_error, Marker, write_all, payload_chunks, new_pacer, blocks, repeat,
}
use telar.TerminalFixture.Write.{IsWritten, write_all-IsWritten}
use telar.TerminalFixture.Payload.{IsPayload, payload_chunks-IsPayload}
use telar.TerminalFixture.Blocks.{join, blocks-new_pacer}
use telar.Tests.Sample.{whole}

abbrev slow_system : ℕ → List ℕ → Option ℕ
slow_system call pending = if call == 2 then none else some 2

abbrev message : List ℕ
message = 1 ∷ 2 ∷ 3 ∷ 4 ∷ 5 ∷ []

write_all-IsWritten_example : IsWritten slow_system message (write_all slow_system message)
write_all-IsWritten_example = write_all-IsWritten slow_system message

write_test : write_all slow_system message ≡ (1 ∷ 2 ∷ 3 ∷ 4 ∷ [], some os_error)
unfolding write_all
write_test = refl

abbrev zeros : ℕ → List ℕ
zeros index = repeat 64 (48 ∷ [])

zeros-length : (index : ℕ) → length (zeros index) ≡ 64
zeros-length index = refl

abbrev two_lines : List ℕ
two_lines = variable_lines zeros "ascii" 0 2

payload_chunks-IsPayload_example :
    (count : ℕ) × (128 ≡ count * 64)
    × IsPayload zeros zeros-length "ascii" false 0 count (two_lines ∷ [])
unfolding payload_chunks
payload_chunks-IsPayload_example =
    payload_chunks-IsPayload zeros zeros-length "ascii" "variable" 128 (two_lines ∷ []) refl

blocks-new_pacer_example :
    let size = (new_pacer whole (pos 1) (pos 0)).block_bytes in
    (join (blocks (length message) size message) ≡ message)
    × All (λ (block : List ℕ). length block ≤ size) (blocks (length message) size message)
    × (64 ≤ size)
    × (size ≤ 65536)
    × (size % 64 ≡ 0)
blocks-new_pacer_example = blocks-new_pacer whole (pos 1) (pos 0) message

abbrev marker : Marker
marker = record { primary = true; color = 0; marker_inputs = 0; drawn = [] }
