-- ===== src/TerminalFixture/Blocks.antt =====
-- The paced writer's blocks.
use telar.Prelude.{
  ℕ, zero, suc, ◌%◌, ◌≤◌, ◌<◌, ◌≡◌, refl, ap, ◌∙◌, List, [], ◌∷◌, ◌++◌, All, length, take, drop,
  take-append-drop, length-take, length-drop, arith,
}
use telar.Number.{Number}
use telar.TerminalFixture.{new_pacer, blocks}

abbrev pub join : List (List ℕ) → List ℕ
join [] = []
join (block ∷ rest) = block ++ join rest

join-blocks :
    (fuel size : ℕ) (chunk : List ℕ)
    → 0 < size
    → length chunk ≤ fuel
    → join (blocks fuel size chunk) ≡ chunk
unfolding blocks
join-blocks fuel size [] s enough = refl
join-blocks zero size (b ∷ chunk) s enough = absurd (omega arith)
join-blocks (suc fuel) size (b ∷ chunk) s enough =
    ap (λ l. take size (b ∷ chunk) ++ l)
      (join-blocks fuel size (drop size (b ∷ chunk)) s
        (omega (arith, enough, s, length-drop size (b ∷ chunk))))
    ∙ take-append-drop size (b ∷ chunk)

blocks-le :
    (fuel size : ℕ) (chunk : List ℕ)
    → All (λ (block : List ℕ). length block ≤ size) (blocks fuel size chunk)
unfolding blocks
blocks-le fuel size [] = tt
blocks-le zero size (b ∷ chunk) = tt
blocks-le (suc fuel) size (b ∷ chunk) =
    (omega (arith, length-take size (b ∷ chunk)), blocks-le fuel size (drop size (b ∷ chunk)))

module _ (n : Number) where
  open n use {Num}

  pacer_size :
      (rate now : Num)
      → (64 ≤ (new_pacer n rate now).block_bytes) × ((new_pacer n rate now).block_bytes ≤ 65536)
  unfolding new_pacer
  pacer_size rate now = (omega arith, omega arith)

  -- Whatever the rate, a paced writer writes each chunk completely and in order, in blocks that are
  -- neither longer than the pacer's block size nor, by it, than 65536 bytes; the block size is at
  -- least one line of 64 bytes, and a whole number of lines.
  pub blocks-new_pacer :
      (rate now : Num) (chunk : List ℕ)
      → let size = (new_pacer n rate now).block_bytes in
        (join (blocks (length chunk) size chunk) ≡ chunk)
        × All (λ (block : List ℕ). length block ≤ size) (blocks (length chunk) size chunk)
        × (64 ≤ size)
        × (size ≤ 65536)
        × (size % 64 ≡ 0)
  unfolding new_pacer
  blocks-new_pacer rate now chunk =
      let (low, high) = pacer_size rate now in
      (
        join-blocks (length chunk) (new_pacer n rate now).block_bytes chunk (omega (arith, low))
            (omega arith),
        blocks-le (length chunk) (new_pacer n rate now).block_bytes chunk,
        low,
        high,
        omega arith,
      )
