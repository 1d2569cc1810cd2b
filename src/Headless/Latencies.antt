-- ===== src/Headless/Latencies.antt =====
-- Every counted input ends as a latency or as a timeout.
use telar.Prelude.{
  ℕ, suc, ◌+◌, ◌≡◌, refl, String, true, false, Option, none, some, List, [], ◌∷◌, length, count_if,
  arith, if◌then◌else◌,
}
use telar.Number.{Number}
use telar.Headless.{Entry, is_named, is_mark, first_frame, scan, echo_latencies, record_answer}

-- The entries from the first mark of the name on.
unfoldable pub from_mark : String → List Entry → List Entry
from_mark since [] = []
from_mark since (entry ∷ entries) =
    let rest = from_mark since entries in
    if is_mark (some since) entry then entry ∷ entries else rest

unfoldable pub considered : Option String → List Entry → List Entry
considered none entries = entries
considered (some since) entries = from_mark since entries

module _ (n : Number) where
  open n use {Num}

  total : List Num × ℕ → ℕ
  total (latencies, timeouts) = length latencies + timeouts

  record_answer-total :
      (entry : Entry) (o : Option Entry) (r : List Num × ℕ)
      → total (record_answer n entry o r) ≡ suc (total r)
  unfolding total
  record_answer-total entry none (latencies, timeouts) = omega arith
  record_answer-total entry (some later) (latencies, timeouts) = omega arith

  scan_counting :
      (label : String) (since : Option String) (entries : List Entry)
      → total (scan n label since true entries) ≡ count_if (is_named label) entries
  unfolding scan total
  scan_counting label since [] = refl
  scan_counting label since (entry ∷ entries) = ground (
    arith,
    record_answer-total entry (first_frame entry.pane entries) (scan n label since true entries),
    scan_counting label since entries,
  )

  scan_waiting :
      (label since : String) (entries : List Entry)
      → total (scan n label (some since) false entries)
        ≡ count_if (is_named label) (from_mark since entries)
  unfolding scan total from_mark
  scan_waiting label since [] = refl
  scan_waiting label since (entry ∷ entries) =
      ground (
        arith,
        scan_counting label (some since) (entry ∷ entries),
        scan_waiting label since entries,
      )

  -- `echo_latencies` answers each input of the label once, with a latency or as a timeout: the
  -- latencies and the timeouts together are as many as the inputs of that label, or, with `since`,
  -- as those of them from the first mark of that name on.
  pub echo_latencies-length :
      (entries : List Entry) (label : String) (since : Option String)
      → let (latencies, timeouts) = echo_latencies n entries label since in
        length latencies + timeouts ≡ count_if (is_named label) (considered since entries)
  unfolding echo_latencies considered total
  echo_latencies-length entries label none = scan_counting label none entries
  echo_latencies-length entries label (some since) = scan_waiting label since entries
