-- ===== src/SlotSummary/Accounting.antt =====
-- The parts of the gate add up.
use telar.Prelude.{
  ℕ, ◌+◌, ◌-◌, ◌≤◌, ◌<◌, ◌≡◌, refl, min, max, List, [], ◌∷◌, All, ltb, Bool-cases, inl, inr, ◌||◌,
  leb, arith,
}
use telar.SlotSummary.{Snapshot}
use telar.SlotSummary.Gate.{Gate, gate, add_interval, is_idle, has_callback}

abbrev pub sum_lengths : List (ℕ × ℕ) → ℕ
sum_lengths [] = 0
sum_lengths ((low, high) ∷ rest) = (high - low) + sum_lengths rest

pub record AddsUp (start stop : ℕ) (g : Gate) : Type 0 where
  pub parts :
      g.dirty_busy_ns
      ≡ g.dirty_busy_callback_ns + g.dirty_busy_deadline_ns + g.eligible_slot_wait_ns
  pub waits : g.eligible_slot_wait_ns ≡ sum_lengths g.eligible
  pub inside : All (λ (i : ℕ × ℕ). (start ≤ i.0) × (i.0 < i.1) × (i.1 ≤ stop)) g.eligible

add_interval-AddsUp :
    (start stop : ℕ) (s : Snapshot) (low high : ℕ) (later : Gate)
    → low < high
    → start ≤ low
    → high ≤ stop
    → AddsUp start stop later
    → AddsUp start stop (add_interval s low high later)
unfolding add_interval
add_interval-AddsUp start stop s low high later nonempty from until a = record {
  parts = ground (arith, a.parts);
  waits = ground (arith, a.waits);
  inside = elim (Bool-cases (has_callback s.flags)) [
    | inl callback ↦ rw callback a.inside
    | inr free ↦ elim (Bool-cases (ltb (max low s.deadline) high)) [
      | inl ready ↦ rw (free, ready) ((omega arith, ground arith, until), a.inside)
      | inr held ↦ rw (free, held) a.inside
    ]
  ];
}

-- Whatever the snapshots, the parts of the gate add up: the busy time is the time with a callback
-- pending, the time until the deadline and the eligible wait; the eligible wait is the sum of the
-- eligible intervals; and each of these is not empty and lies between the start and the end.
pub gate-AddsUp :
    (start stop : ℕ) (snapshots : List Snapshot) → AddsUp start stop (gate start stop snapshots)
unfolding gate
gate-AddsUp start stop [] = record { parts = refl; waits = refl; inside = tt }
gate-AddsUp start stop (s ∷ []) = record { parts = refl; waits = refl; inside = tt }
gate-AddsUp start stop (s ∷ t ∷ snapshots) =
    let a = gate-AddsUp start stop (t ∷ snapshots) in
    elim (Bool-cases (leb (min t.time stop) (max s.time start) || is_idle s.flags)) [
      | inl skipped ↦ rw skipped a
      | inr counted ↦ rw counted (
          add_interval-AddsUp start stop s (max s.time start) (min t.time stop) _ (ground arith)
            (omega arith) (omega arith) a)
    ]
