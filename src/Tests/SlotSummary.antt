-- ===== src/Tests/SlotSummary.antt =====
-- A probe with three snapshots, one native frame and two frames.
use telar.Prelude.{Option, ℕ, [], ◌∷◌, refl, List, ◌≡◌, ◌+◌, ◌-◌, ◌≤◌, length, count_if, All}
use telar.Prelude.Int.{pos}
use telar.SlotSummary.{Native, Event, read_events}
use telar.SlotSummary.Gate.{gate}
use telar.SlotSummary.Frames.{Frame, is_selected, select_frames, sort_workers}
use telar.SlotSummary.Occupied.{AreWaits, eligible_waits-AreWaits}
use telar.SlotSummary.Waits.{eligible_waits, native_metrics}
use telar.SlotSummary.Within.{gate-le-interval}
use telar.SlotSummary.Matching.{IsKept, select_frames-IsKept}

abbrev event : ℕ → ℕ → ℕ → ℕ → Event
event kind time token detail = record { kind = kind; time = time; token = token; detail = detail }

-- Out of order, as the probe's threads write them.
abbrev events : List Event
events =
    event 0 100 7 120
    ∷ event 5 110 1 0
    ∷ event 0 200 15 0
    ∷ event 3 105 1 0
    ∷ event 4 180 1 1
    ∷ event 6 170 1 0
    ∷ event 0 300 0 0
    ∷ []

abbrev frame : ℕ → Frame
frame begun = record {
  acquire_begin = begun;
  acquire_end = begun + 1;
  encode_begin = begun + 2;
  encode_end = begun + 3;
  submit_begin = begun + 4;
  submit_end = begun + 5;
  present_begin = begun + 6;
  present_end = begun + 7;
  fence_begin = begun + 8;
  fence_end = begun + 9;
  acquired = pos 0;
  submitted = pos 0;
  presented = pos 0;
  completed = pos 0;
}

gate-le-interval_example :
    (gate 100 300 (read_events events 400).snapshots).dirty_busy_ns ≤ 300 - 100
gate-le-interval_example = gate-le-interval events 400 100 300

select_frames-IsKept_example :
    let (good, rejected) =
      select_frames 100 300
        (sort_workers (read_events events 400).native)
        (frame 120 ∷ frame 290 ∷ []) in
    All (IsKept 100 300) good
    × (length good + rejected ≡ count_if (is_selected 100 300) (frame 120 ∷ frame 290 ∷ []))
select_frames-IsKept_example =
    select_frames-IsKept 100 300 (read_events events 400).native (frame 120 ∷ frame 290 ∷ [])

-- The native frame held the slot from 105 to 180, and the deadline passed at 120.
abbrev matched : List (Frame × Option Native)
matched =
    (select_frames 100 300 (sort_workers (read_events events 400).native)
      (frame 120 ∷ frame 290 ∷ [])).0

abbrev waits : List ℕ
waits = eligible_waits (gate 100 300 (read_events events 400).snapshots).eligible matched

eligible_waits-AreWaits_example :
    AreWaits (gate 100 300 (read_events events 400).snapshots).eligible_slot_wait_ns matched waits
eligible_waits-AreWaits_example = eligible_waits-AreWaits events 400 100 300 matched

waits_test : waits ≡ 60 ∷ []
unfolding gate read_events select_frames sort_workers eligible_waits
waits_test = refl

occupied_test : (native_metrics matched).native_slot_occupied ≡ pos 75 ∷ []
unfolding native_metrics read_events select_frames sort_workers
occupied_test = refl

-- The slot was busy from 100 to 180 with a deadline at 120, then free until the next snapshot.
busy_test : (gate 100 300 (read_events events 400).snapshots).dirty_busy_ns ≡ 180
unfolding gate read_events
busy_test = refl

wait_test : (gate 100 300 (read_events events 400).snapshots).eligible_slot_wait_ns ≡ 60
unfolding gate read_events
wait_test = refl
