-- ===== src/Headless.antt =====
-- tools/headless_client.py: what a trace of the headless client says of its inputs and frames.
pub mod Latencies
pub mod Frames
pub mod Client
use telar.Prelude.{
  ℕ, suc, ◌+◌, ◌-◌, String, Bool, true, false, not, ◌&&◌, ◌||◌, Option, none, some, List, [], ◌∷◌,
  get_elem?, take, drop, length, select, str_eq, if◌then◌else◌,
}
use telar.Prelude.Int.{ℤ, ◌-ℤ◌, eq_ℤ}
use telar.Prelude.Result.{Result, ok, err, Exception, index_error, or_raise, ◌>>=◌}
use telar.Number.{Number}

-- An entry of the trace. A label or a pane that is absent reads as `None`.
pub record Entry : Type 0 where
  pub kind : String
  pub label : Option String
  pub pane : Option ℤ
  pub t_ns : ℤ

abbrev pub is_input : Entry → Bool
is_input entry = str_eq entry.kind "input"

abbrev same_text : Option String → Option String → Bool
same_text none none = true
same_text (some a) (some b) = str_eq a b
same_text _ _ = false

abbrev same_pane : Option ℤ → Option ℤ → Bool
same_pane none none = true
same_pane (some a) (some b) = eq_ℤ a b
same_pane _ _ = false

-- `pane is None or later.get("pane") == pane`
abbrev on_pane : Option ℤ → Entry → Bool
on_pane none later = true
on_pane (some p) later = same_pane later.pane (some p)

abbrev pub is_frame_of : Option ℤ → Entry → Bool
is_frame_of pane later = str_eq later.kind "frame" && on_pane pane later

-- `entry["kind"] == "mark" and entry.get("label") == since`
abbrev pub is_mark : Option String → Entry → Bool
is_mark since entry = str_eq entry.kind "mark" && same_text entry.label since

-- The first frame of the pane before the next input.
unfoldable pub first_frame : Option ℤ → List Entry → Option Entry
first_frame pane [] = none
first_frame pane (later ∷ entries) =
    let rest = first_frame pane entries in
    if is_input later then none else if is_frame_of pane later then some later else rest

-- `counting = since is None`
abbrev pub counts_at_once : Option String → Bool
counts_at_once none = true
counts_at_once (some since) = false

-- An input whose label is the one asked for.
abbrev pub is_named : String → Entry → Bool
is_named label entry = is_input entry && same_text entry.label (some label)

module _ (n : Number) where
  open n use {Num, of_nat, of_int, div}

  -- `(later["t_ns"] - entry["t_ns"]) / 1e3`
  abbrev pub microseconds : Entry → Entry → Num
  microseconds entry later = div (of_int (later.t_ns -ℤ entry.t_ns)) (of_nat 1000)

  abbrev record_answer : Entry → Option Entry → List Num × ℕ → List Num × ℕ
  record_answer entry none (latencies, timeouts) = (latencies, suc timeouts)
  record_answer entry (some later) (latencies, timeouts) =
      (microseconds entry later ∷ latencies, timeouts)

  unfoldable pub scan : String → Option String → Bool → List Entry → List Num × ℕ
  unfolding first_frame
  scan label since counting [] = ([], 0)
  scan label since counting (entry ∷ entries) =
      let counting' = counting || is_mark since entry in
      let rest = scan label since counting' entries in
      if counting' && is_named label entry
      then record_answer entry (first_frame entry.pane entries) rest
      else rest

  unfoldable pub echo_latencies : List Entry → String → Option String → List Num × ℕ
  unfolding scan
  echo_latencies entries label since = scan label since (counts_at_once since) entries

-- `[i for i, entry in enumerate(entries) if entry["kind"] == "input"]`, from index `i` on.
unfoldable pub input_indices : ℕ → List Entry → List ℕ
input_indices i [] = []
input_indices i (entry ∷ entries) =
    let rest = input_indices (suc i) entries in if is_input entry then i ∷ rest else rest

abbrev pub last : {A : Type 0} → List A → Option A
last [] = none
last (x ∷ []) = some x
last (x ∷ y ∷ ys) = last (y ∷ ys)

abbrev pub or_else : {A : Type 0} → Option A → A → A
or_else none d = d
or_else (some a) d = a

-- `entry.get("pane") if pane is None else pane`
abbrev pub asked_pane : Option ℤ → Entry → Option ℤ
asked_pane none entry = entry.pane
asked_pane (some pane) entry = some pane

abbrev pub since_input : Entry → Option Entry → Option ℤ
since_input entry none = none
since_input entry (some frame) = some (frame.t_ns -ℤ entry.t_ns)

-- `input_index` counts from the first input.
unfoldable pub last_frame_after : List Entry → ℕ → Option ℤ → Result Exception (Option ℤ)
unfolding input_indices
last_frame_after entries input_index pane = do
  let inputs = input_indices 0 entries
  start ← or_raise (get_elem? inputs input_index) index_error
  let end_index = or_else (get_elem? inputs (suc input_index)) (length entries)
  entry ← or_raise (get_elem? entries start) index_error
  let between = take (end_index - (start + 1)) (drop (start + 1) entries)
  ok (since_input entry (last (select (is_frame_of (asked_pane pane entry)) between)))
