-- ===== src/SlotSummary/Occupied.antt =====
-- What a frame is charged for is no more than the time for which it held the slot.
use telar.Prelude.{
  refl, sym, subst, ℕ, ◌+◌, ◌-◌, ◌≤◌, ◌≡◌, min, max, Option, none, some, List, [], ◌∷◌, Bool-cases,
  inl, inr, ◌||◌, leb, ltb, arith,
}
use telar.SlotSummary.{Snapshot, Native, Event, read_events}
use telar.SlotSummary.Frames.{Frame}
use telar.SlotSummary.Gate.{Gate, gate, add_interval, is_idle, has_callback}
use telar.SlotSummary.Accounting.{sum_lengths, gate-AddsUp}
use telar.SlotSummary.Within.{IsChronological, read_events-IsChronological}
use telar.SlotSummary.Waits.{add_waited, waited, eligible_waits}

-- Intervals in order, apart from each other and none of them before `now`.
abbrev IsApart : ℕ → List (ℕ × ℕ) → Type 0
IsApart now [] = Unit
IsApart now ((low, high) ∷ rest) = (now ≤ low) × (low ≤ high) × IsApart high rest

earlier-IsApart :
    (soon now : ℕ) (eligible : List (ℕ × ℕ))
    → soon ≤ now
    → IsApart now eligible
    → IsApart soon eligible
earlier-IsApart soon now [] le apart = tt
earlier-IsApart soon now ((low, high) ∷ rest) le apart =
    (omega (arith, le, apart.0), apart.1, apart.2)

add_interval-IsApart :
    (s : Snapshot) (low high : ℕ) (later : Gate)
    → IsApart high later.eligible
    → low ≤ high
    → IsApart low (add_interval s low high later).eligible
unfolding add_interval
add_interval-IsApart s low high later apart le = elim (Bool-cases (has_callback s.flags)) [
  | inl callback ↦ rw callback (earlier-IsApart low high later.eligible le apart)
  | inr free ↦ elim (Bool-cases (ltb (max low s.deadline) high)) [
    | inl ready ↦ rw (free, ready) (omega arith, ground arith, apart)
    | inr held ↦ rw (free, held) (earlier-IsApart low high later.eligible le apart)
  ]
]

gate-IsApart :
    (start stop : ℕ) (s : Snapshot) (snapshots : List Snapshot)
    → IsChronological (s ∷ snapshots)
    → IsApart (max s.time start) (gate start stop (s ∷ snapshots)).eligible
unfolding gate
gate-IsApart start stop s [] c = tt
gate-IsApart start stop s (t ∷ snapshots) (le, c) =
    let apart = gate-IsApart start stop t snapshots c in
    elim (Bool-cases (leb (min t.time stop) (max s.time start) || is_idle s.flags)) [
      | inl skipped ↦ rw skipped (earlier-IsApart _ _ _ (omega (arith, le)) apart)
      | inr counted ↦ rw counted (
          add_interval-IsApart s (max s.time start) (min t.time stop) _
            (earlier-IsApart (min t.time stop) (max t.time start) _ (omega arith) apart)
            (ground (arith, counted)))
    ]

snapshots-IsApart :
    (start stop : ℕ) (snapshots : List Snapshot)
    → IsChronological snapshots
    → IsApart 0 (gate start stop snapshots).eligible
unfolding gate
snapshots-IsApart start stop [] c = tt
snapshots-IsApart start stop (s ∷ snapshots) c =
    earlier-IsApart 0 (max s.time start) _ (omega arith) (gate-IsApart start stop s snapshots c)

waited_from :
    (now enqueue complete : ℕ) (eligible : List (ℕ × ℕ))
    → IsApart now eligible
    → waited eligible enqueue complete + max enqueue now ≤ max complete (max enqueue now)
unfolding waited
waited_from now enqueue complete [] apart = omega arith
waited_from now enqueue complete ((low, high) ∷ rest) (from, le, apart) =
    omega (arith, from, le, waited_from high enqueue complete rest apart)

waited-sum :
    (enqueue complete : ℕ) (eligible : List (ℕ × ℕ))
    → waited eligible enqueue complete ≤ sum_lengths eligible
unfolding waited
waited-sum enqueue complete [] = omega arith
waited-sum enqueue complete ((low, high) ∷ rest) = omega (arith, waited-sum enqueue complete rest)

-- One wait for each frame that has a native frame with both times: no longer than the frame held the
-- slot, and no longer than the gate's whole eligible wait.
pub data AreWaits (whole : ℕ) : List (Frame × Option Native) → List ℕ → Type 0 where
  no_frames : AreWaits whole [] []
  unmatched :
      (frame : Frame) {good : List (Frame × Option Native)} {waits : List ℕ}
      → AreWaits whole good waits
      → AreWaits whole ((frame, none) ∷ good) waits
  not_enqueued :
      (frame : Frame) (entry : Native) {good : List (Frame × Option Native)} {waits : List ℕ}
      → entry.enqueue ≡ none
      → AreWaits whole good waits
      → AreWaits whole ((frame, some entry) ∷ good) waits
  not_completed :
      (frame : Frame) (entry : Native) {good : List (Frame × Option Native)} {waits : List ℕ}
      → entry.complete ≡ none
      → AreWaits whole good waits
      → AreWaits whole ((frame, some entry) ∷ good) waits
  held :
      (frame : Frame) (entry : Native) {good : List (Frame × Option Native)} {waits : List ℕ}
      → (enqueue complete wait : ℕ) → entry.enqueue ≡ some enqueue
      → entry.complete ≡ some complete
      → wait ≤ complete - enqueue
      → wait ≤ whole
      → AreWaits whole good waits
      → AreWaits whole ((frame, some entry) ∷ good) (wait ∷ waits)

add_waited-AreWaits :
    (eligible : List (ℕ × ℕ))
    → IsApart 0 eligible
    → (frame : Frame) (entry : Native) (enqueue complete : Option ℕ) → entry.enqueue ≡ enqueue
    → entry.complete ≡ complete
    → {good : List (Frame × Option Native)} {waits : List ℕ}
    → AreWaits (sum_lengths eligible) good waits
    → AreWaits
        (sum_lengths eligible)
        ((frame, some entry) ∷ good)
        (add_waited eligible enqueue complete waits)
add_waited-AreWaits eligible apart frame entry none complete e c rest =
    not_enqueued frame entry e rest
add_waited-AreWaits eligible apart frame entry (some enqueue) none e c rest =
    not_completed frame entry c rest
add_waited-AreWaits eligible apart frame entry (some enqueue) (some complete) e c rest =
    held frame entry enqueue complete (waited eligible enqueue complete) e c
      (omega (arith, waited_from 0 enqueue complete eligible apart))
      (waited-sum enqueue complete eligible) rest

waits_of :
    (eligible : List (ℕ × ℕ))
    → IsApart 0 eligible
    → (good : List (Frame × Option Native))
    → AreWaits (sum_lengths eligible) good (eligible_waits eligible good)
unfolding eligible_waits
waits_of eligible apart [] = no_frames
waits_of eligible apart ((frame, none) ∷ good) = unmatched frame (waits_of eligible apart good)
waits_of eligible apart ((frame, some entry) ∷ good) =
    add_waited-AreWaits eligible apart frame entry entry.enqueue entry.complete refl refl
      (waits_of eligible apart good)

-- Whatever the events of the probe, their order and the frames, there is one eligible wait for each
-- frame whose native frame was enqueued and completed, and none for the others: it is no longer than
-- the frame held the slot, from `enqueue` to `complete`, and no longer than the eligible wait that
-- the gate adds up.
pub eligible_waits-AreWaits :
    (events : List Event) (last_ns start stop : ℕ) (good : List (Frame × Option Native))
    → let g = gate start stop (read_events events last_ns).snapshots in
      AreWaits g.eligible_slot_wait_ns good (eligible_waits g.eligible good)
eligible_waits-AreWaits events last_ns start stop good =
    let snapshots = (read_events events last_ns).snapshots in
    let g = gate start stop snapshots in
    subst (λ whole. AreWaits whole good (eligible_waits g.eligible good))
      (sym (gate-AddsUp start stop snapshots).waits)
      (waits_of g.eligible
        (snapshots-IsApart start stop snapshots (read_events-IsChronological events last_ns)) good)
