-- ===== src/Tests/Headless.antt =====
-- A trace with a mark, three inputs and frames of two panes.
use telar.Prelude.{
  ℕ, none, some, [], ◌∷◌, refl, List, String, Option, ◌≡◌, ◌+◌, length, count_if, select,
}
use telar.Prelude.Int.{ℤ, pos}
use telar.Headless.{asked_pane, is_frame_of, last, since_input, Entry, last_frame_after}
use telar.Headless.Frames.{Around, before_input, last_frame_after-ok}

abbrev entry : String → Option String → ℕ → ℕ → Entry
entry kind label pane t = record {
  kind = kind;
  label = label;
  pane = some (pos pane);
  t_ns = pos t;
}

abbrev second_input : Entry
second_input = entry "input" (some "text") 1 3000

abbrev tail : List Entry
tail =
    entry "frame" none 2 4000
    ∷ entry "frame" none 1 5000
    ∷ entry "frame" none 1 9000
    ∷ entry "input" (some "text") 1 9500
    ∷ []

abbrev entries : List Entry
entries = entry "input" (some "text") 1 1000 ∷ entry "mark" (some "go") 1 2000 ∷ second_input ∷ tail

last_frame_after-ok_example :
    (e : Entry) × (behind : List Entry) × Around entries 1 e behind
    × (some (pos 6000)
        ≡ since_input e (last (select (is_frame_of (asked_pane none e)) (before_input behind))))
unfolding last_frame_after telar.Prelude.Int.◌-ℤ◌
last_frame_after-ok_example = last_frame_after-ok entries 1 none (some (pos 6000)) refl
