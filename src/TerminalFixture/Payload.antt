-- ===== src/TerminalFixture/Payload.antt =====
-- The chunks of a payload are its lines.
use telar.TerminalFixture.Lines.{
  whole_total, from_zero, lines_from-add, chunk_of-spelled, length-spelled, sum_lengths, join,
  lines_from, spelled_line,
}
use mathlib.Core.List.{append-nil}
use mathlib.Core.Path.{ap₂}
use telar.Prelude.{
  leb→le, leb, ℕ, zero, suc, ◌+◌, ◌-◌, ◌*◌, ◌/◌, ◌%◌, min, ◌≤◌, ◌≡◌, sym, ap, ◌∙◌, subst, String,
  Bool, false, not, ◌&&◌, ◌||◌, inl, inr, List, [], ◌∷◌, ◌++◌, All, length, ltb, str_eq, ◌==◌,
  Bool-cases, arith,
}
use telar.Prelude.Result.{ok, guard-eq-ok, >>=-eq-ok, ok-injective}
use telar.TerminalFixture.{
  chunk_bytes, line_bytes, repeat, payload_line, payload_chunk, chunk_of, chunks_from,
  payload_chunks,
}

module _ (hex_digest : ℕ → List ℕ) (hex_64 : (index : ℕ) → length (hex_digest index) ≡ 64) where
  -- The chunks, joined, are the lines of the payload, `count` from the index on, and each of them is
  -- whole lines, at most 65536 bytes.
  pub record IsPayload (name : String) (repeated : Bool) (index count : ℕ) (chunks : List (List ℕ))
      : Type 0 where
    pub content :
        join chunks ≡ lines_from (spelled_line hex_digest hex_64 name repeated) index count
    pub bytes : sum_lengths chunks ≡ count * 64
    pub lines : All (λ (chunk : List ℕ). (length chunk ≤ 65536) × (length chunk % 64 ≡ 0)) chunks

  -- The lines of a chunk and those behind it.
  lines_from-split :
      (line : ℕ → List ℕ) (index left : ℕ)
      → lines_from line index (min 1024 left) ++ lines_from line (index + 1024) (left - 1024)
        ≡ lines_from line index left
  lines_from-split line index left = elim (Bool-cases (leb 1024 left)) [
    | inl more ↦
        let size : min 1024 left ≡ 1024 = omega (arith, leb→le 1024 left more) in
        let all : 1024 + (left - 1024) ≡ left = omega (arith, leb→le 1024 left more) in
        ap (λ k. lines_from line index k ++ lines_from line (index + 1024) (left - 1024)) size
        ∙ lines_from-add line index 1024 (left - 1024)
        ∙ ap (lines_from line index) all
    | inr last ↦
        let size : min 1024 left ≡ left = last_size left last in
        let none_left : left - 1024 ≡ 0 = last_left left last in
        ap₂ (λ a b. lines_from line index a ++ lines_from line (index + 1024) b) size none_left
        ∙ append-nil (lines_from line index left)
  ]
    where
      last_size : (left : ℕ) → leb 1024 left ≡ false → min 1024 left ≡ left
      last_size left last = ground (arith, last)

      last_left : (left : ℕ) → leb 1024 left ≡ false → left - 1024 ≡ 0
      last_left left last = ground (arith, last)

  nothing_left :
      (name : String) (repeated : Bool) (index total : ℕ)
      → total - index ≡ 0
      → IsPayload name repeated index (total - index) []
  nothing_left name repeated index total none_left = record {
    content = ap (lines_from (spelled_line hex_digest hex_64 name repeated) index) (sym none_left);
    bytes = omega (arith, none_left);
    lines = tt;
  }

  no_lines : (i t : ℕ) → ltb (i * 64) (t * 64) ≡ false → t - i ≡ 0
  no_lines i t e = ground (arith, e)

  -- One more chunk ahead of the others.
  more_lines :
      (name : String) (repeated : Bool) (line : List ℕ) (index total : ℕ)
      → payload_line name ≡ ok line
      → (rest : List (List ℕ))
      → IsPayload name repeated (index + 1024) (total - (index + 1024)) rest
      → IsPayload name repeated index (total - index) (
          chunk_of hex_digest name repeated
            (repeat 1024 line)
            (index * 64)
            (min 65536 (total * 64 - index * 64))
          ∷ rest)
  more_lines name repeated line index total h rest r =
      let now : ℕ = min 1024 (total - index) in
      let size : min 65536 (total * 64 - index * 64) ≡ now * 64 = omega arith in
      let left : total - (index + 1024) ≡ (total - index) - 1024 = omega arith in
      let chunk =
        ap (chunk_of hex_digest name repeated (repeat 1024 line) (index * 64)) size
        ∙ chunk_of-spelled hex_digest hex_64 name line h repeated index now (omega arith) in
      let length_of =
        ap length chunk ∙ length-spelled hex_digest hex_64 name line h repeated index now in
      record {
        content =
            ap₂ (λ a b. a ++ b) chunk
              (r.content
                ∙ ap (lines_from (spelled_line hex_digest hex_64 name repeated) (index + 1024))
                    left)
            ∙ lines_from-split (spelled_line hex_digest hex_64 name repeated) index (total - index);
        bytes = omega (arith, length_of, r.bytes);
        lines = ((omega (arith, length_of), omega (arith, length_of)), r.lines);
      }

  chunks_from-IsPayload :
      (fuel : ℕ) (name : String) (repeated : Bool) (line : List ℕ) (index total : ℕ)
      → payload_line name ≡ ok line
      → total ≤ index + fuel * 1024
      → IsPayload name repeated index
          (total - index)
          (chunks_from hex_digest fuel name repeated (repeat 1024 line) (index * 64) (total * 64))
  unfolding chunks_from
  chunks_from-IsPayload zero name repeated line index total h enough =
      nothing_left name repeated index total (omega (arith, enough))
  chunks_from-IsPayload (suc fuel) name repeated line index total h enough =
      elim (Bool-cases (ltb (index * 64) (total * 64))) [
        | inr e ↦
            rw (e, chunks_from) (nothing_left name repeated index total (no_lines index total e))
        | inl e ↦
            let rest =
              chunks_from-IsPayload fuel name repeated line (index + 1024) total h
                (omega (arith, enough)) in
            rw (e, chunks_from)
              (more_lines name repeated line index total h
                (chunks_from hex_digest fuel name repeated (repeat 1024 line) (index * 64 + 65536)
                  (total * 64))
                (subst
                  (λ offset. IsPayload name repeated (index + 1024) (total - (index + 1024)) (
                    chunks_from hex_digest fuel name repeated (repeat 1024 line) offset
                      (total * 64)))
                  (omega arith) rest))
      ]

  -- If the digests have 64 digits, the chunks that `payload_chunks` returns are, joined, the lines of
  -- the payload from the first on, as many as make the bytes asked for: each is the line that is
  -- repeated, or the digest of its index, cut to what the line's ends leave, between these. A chunk has
  -- whole lines of 64 bytes, at most 65536 bytes.
  pub payload_chunks-IsPayload :
      (name pattern_name : String) (total : ℕ) (chunks : List (List ℕ))
      → payload_chunks hex_digest name pattern_name total ≡ ok chunks
      → (count : ℕ) × (total ≡ count * 64)
        × IsPayload name (str_eq pattern_name "repeat") 0 count chunks
  unfolding payload_chunks payload_chunk
  payload_chunks-IsPayload name pattern_name total chunks h =
      let (known, h1) =
        guard-eq-ok (not (str_eq pattern_name "repeat") && not (str_eq pattern_name "variable")) _ _
          h in
      let (whole_lines, h2) = guard-eq-ok (total == 0 || not (total % line_bytes == 0)) _ _ h1 in
      let (whole, made, h3) = >>=-eq-ok (payload_chunk name) _ h2 in
      let (line, chosen, repeated) = >>=-eq-ok (payload_line name) _ made in
      let all : total ≡ total / 64 * 64 = omega (arith, whole_total total whole_lines) in
      (
        total / 64,
        all,
        subst (IsPayload name (str_eq pattern_name "repeat") 0 (total / 64)) (ok-injective h3) (
            subst
              (λ (p : List ℕ × ℕ). IsPayload name (str_eq pattern_name "repeat") 0 (total / 64) (
                chunks_from hex_digest (suc (total / chunk_bytes)) name
                  (str_eq pattern_name "repeat") p.0 0 p.1))
              (ap₂ (λ a b. (a, b)) (ok-injective repeated) (sym all))
              (from_start (
                chunks_from-IsPayload (suc (total / chunk_bytes)) name
                  (str_eq pattern_name "repeat") line 0 (total / 64) chosen (omega arith)))),
      )
    where
      from_start :
          {repeated : Bool} {count : ℕ} {chunks : List (List ℕ)}
          → IsPayload name repeated 0 (count - 0) chunks
          → IsPayload name repeated 0 count chunks
      from_start {repeated} {count} {chunks} p =
          subst (λ k. IsPayload name repeated 0 k chunks) (from_zero count) p
