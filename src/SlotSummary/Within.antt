-- ===== src/SlotSummary/Within.antt =====
-- The gate of a probe's events is never longer than the interval that it looks at.
use telar.Prelude.{
  true, false, ◌==◌, ltb, if◌then◌else◌, Option-cases, Bool, All-mono, ℕ, ◌+◌, ◌-◌, ◌≤◌, ◌≡◌, min,
  max, List, [], ◌∷◌, ◌++◌, All, Bool-cases, inl, inr, ◌||◌, leb, arith,
}
use telar.SlotSummary.{
  last_snapshot, Folded, read_events, sort_events, insert_event, fold_events, Event, fold_event,
  free_slot, Snapshot,
}
use telar.SlotSummary.Gate.{Gate, gate, add_interval, is_idle}

abbrev pub IsChronological : List Snapshot → Type 0
IsChronological [] = Unit
IsChronological (s ∷ []) = Unit
IsChronological (s ∷ t ∷ snapshots) = (s.time ≤ t.time) × IsChronological (t ∷ snapshots)

add_interval-busy :
    (s : Snapshot) (low high : ℕ) (later : Gate)
    → (add_interval s low high later).dirty_busy_ns ≡ (high - low) + later.dirty_busy_ns
unfolding add_interval
add_interval-busy s low high later = ground arith

gate_from :
    (start stop : ℕ) (s : Snapshot) (snapshots : List Snapshot)
    → IsChronological (s ∷ snapshots)
    → (gate start stop (s ∷ snapshots)).dirty_busy_ns + max s.time start
      ≤ max stop (max s.time start)
unfolding gate
gate_from start stop s [] c = omega arith
gate_from start stop s (t ∷ snapshots) (le, c) =
    let rest = gate_from start stop t snapshots c in
    elim (Bool-cases (leb (min t.time stop) (max s.time start) || is_idle s.flags)) [
      | inl skipped ↦ rw skipped (omega (arith, rest, le))
      | inr counted ↦ rw counted (
          ground (
            arith,
            rest,
            le,
            counted,
            add_interval-busy s (max s.time start) (min t.time stop)
                (gate start stop (t ∷ snapshots)),
          ))
    ]

gate-le :
    (start stop : ℕ) (snapshots : List Snapshot)
    → IsChronological snapshots
    → (gate start stop snapshots).dirty_busy_ns ≤ stop - start
unfolding gate
gate-le start stop [] c = omega arith
gate-le start stop (s ∷ snapshots) c = omega (arith, gate_from start stop s snapshots c)

-- Snapshots in order, none of them later than `now`.
abbrev Until : ℕ → List Snapshot → Type 0
Until now snapshots = IsChronological snapshots × All (λ (s : Snapshot). s.time ≤ now) snapshots

chronological-append :
    (snapshots : List Snapshot) (s : Snapshot)
    → Until s.time snapshots
    → Until s.time (snapshots ++ s ∷ [])
chronological-append [] s h = (tt, (omega arith, tt))
chronological-append (a ∷ []) s h = ((h.1.0, tt), (h.1.0, (omega arith, tt)))
chronological-append (a ∷ b ∷ snapshots) s (c, u) =
    let (c', u') = chronological-append (b ∷ snapshots) s (c.1, u.1) in ((c.0, c'), (u.0, u'))

later_bound :
    (now soon : ℕ) (snapshots : List Snapshot)
    → now ≤ soon
    → Until now snapshots
    → Until soon snapshots
later_bound now soon snapshots le (c, u) = (c, All-mono (λ s h. omega (arith, h, le)) snapshots u)

free_slot-Until :
    (time : ℕ) (snapshots : List Snapshot)
    → Until time snapshots
    → Until time (free_slot time snapshots)
unfolding free_slot
free_slot-Until time snapshots u = elim (Option-cases (last_snapshot snapshots)) [
  | inl e ↦ rw (e, free_slot) u
  | inr (s, e) ↦ rw (e, free_slot) (chronological-append snapshots _ u)
]

busy_case :
    (b : Bool) (time : ℕ) (snapshots : List Snapshot)
    → Until time snapshots
    → Until time (if b then free_slot time snapshots else snapshots)
busy_case true time snapshots u = free_slot-Until time snapshots u
busy_case false time snapshots u = u

fold_event-Until :
    (event : Event) (s : Folded)
    → Until event.time s.snapshots
    → Until event.time (fold_event event s).snapshots
unfolding fold_event
fold_event-Until event s u = elim (Bool-cases (event.kind == 0)) [
  | inl taken ↦ rw taken (chronological-append s.snapshots _ u)
  | inr not_0 ↦ elim (Bool-cases (event.kind == 1)) [
    | inl begun ↦ rw (not_0, begun) u
    | inr not_1 ↦ elim (Bool-cases (leb event.kind 6)) [
      | inl framed ↦
          rw (not_0, not_1, framed) (busy_case (event.kind == 4) event.time s.snapshots u)
      | inr past ↦ elim (Bool-cases (event.kind == 7)) [
        | inl ended ↦ rw (not_0, not_1, past, ended) u
        | inr other ↦ rw (not_0, not_1, past, other) u
      ]
    ]
  ]
]

-- Events in order, none of them earlier than `now`.
abbrev From : ℕ → List Event → Type 0
From now [] = Unit
From now (event ∷ events) = (now ≤ event.time) × From event.time events

fold_events-Until :
    (now : ℕ) (events : List Event) (s : Folded)
    → From now events
    → Until now s.snapshots
    → IsChronological (fold_events events s).snapshots
unfolding fold_events
fold_events-Until now [] s f u = u.0
fold_events-Until now (event ∷ events) s (le, f) u =
    fold_events-Until event.time events (fold_event event s) f
      (fold_event-Until event s (later_bound now event.time s.snapshots le u))

insert_event-From :
    (now : ℕ) (event : Event) (events : List Event)
    → now ≤ event.time
    → From now events
    → From now (insert_event event events)
unfolding insert_event
insert_event-From now event [] le f = (le, tt)
insert_event-From now event (first ∷ events) le (early, f) =
    elim (Bool-cases (ltb first.time event.time)) [
      | inl before ↦ rw before (early, insert_event-From first.time event events (ground arith) f)
      | inr behind ↦ rw behind (le, (ground arith, f))
    ]

sort_events-From : (events : List Event) → From 0 (sort_events events)
unfolding sort_events
sort_events-From [] = tt
sort_events-From (event ∷ events) =
    insert_event-From 0 event (sort_events events) (omega arith) (sort_events-From events)

pub read_events-IsChronological :
    (events : List Event) (last_ns : ℕ) → IsChronological (read_events events last_ns).snapshots
unfolding read_events
read_events-IsChronological events last_ns =
    fold_events-Until 0 (sort_events events) _ (sort_events-From events) (tt, tt)

-- Whatever the events of the probe and their order, the busy time that the gate adds up between a
-- start and an end is at most the time between the two: no interval is counted twice.
pub gate-le-interval :
    (events : List Event) (last_ns start stop : ℕ)
    → (gate start stop (read_events events last_ns).snapshots).dirty_busy_ns ≤ stop - start
gate-le-interval events last_ns start stop =
    gate-le start stop _ (read_events-IsChronological events last_ns)
