-- ===== src/SlotSummary/Gate.antt =====
-- The gate of `summarize`: for how long a dirty view was busy, and why.
use Prim.Native.Nat.{bit_and}
use telar.Prelude.{
  ℕ, ◌+◌, ◌-◌, min, max, Bool, not, ◌||◌, List, [], ◌∷◌, ltb, leb, ◌==◌, if◌then◌else◌,
}
use telar.SlotSummary.{Snapshot}

pub record Gate : Type 0 where
  pub dirty_busy_ns : ℕ
  pub dirty_busy_callback_ns : ℕ
  pub dirty_busy_deadline_ns : ℕ
  pub eligible_slot_wait_ns : ℕ
  pub eligible : List (ℕ × ℕ)

abbrev pub no_gate : Gate
no_gate = record {
  dirty_busy_ns = 0;
  dirty_busy_callback_ns = 0;
  dirty_busy_deadline_ns = 0;
  eligible_slot_wait_ns = 0;
  eligible = [];
}

-- `flags & 7 != 7 or flags & 16`
abbrev pub is_idle : ℕ → Bool
is_idle flags = not (bit_and flags 7 == 7) || not (bit_and flags 16 == 0)

abbrev pub has_callback : ℕ → Bool
has_callback flags = not (bit_and flags 8 == 0)

-- The interval from `low` to `high`, which is not empty, and what the later intervals add up to.
unfoldable pub add_interval : Snapshot → ℕ → ℕ → Gate → Gate
add_interval s low high later =
    let ready = max low s.deadline in
    if has_callback s.flags
    then record later {
      dirty_busy_ns = (high - low) + later.dirty_busy_ns;
      dirty_busy_callback_ns = (high - low) + later.dirty_busy_callback_ns;
    }
    else if ltb ready high
    then record {
      dirty_busy_ns = (high - low) + later.dirty_busy_ns;
      dirty_busy_callback_ns = later.dirty_busy_callback_ns;
      dirty_busy_deadline_ns = (min high s.deadline - low) + later.dirty_busy_deadline_ns;
      eligible_slot_wait_ns = (high - ready) + later.eligible_slot_wait_ns;
      eligible = (ready, high) ∷ later.eligible;
    }
    else record later {
      dirty_busy_ns = (high - low) + later.dirty_busy_ns;
      dirty_busy_deadline_ns = (min high s.deadline - low) + later.dirty_busy_deadline_ns;
    }

-- `zip(snapshots, snapshots[1:])`, cut to the interval from `start` to `stop`.
unfoldable pub gate : ℕ → ℕ → List Snapshot → Gate
unfolding add_interval
gate start stop [] = no_gate
gate start stop (s ∷ []) = no_gate
gate start stop (s ∷ t ∷ snapshots) =
    let later = gate start stop (t ∷ snapshots) in
    if leb (min t.time stop) (max s.time start) || is_idle s.flags
    then later
    else add_interval s (max s.time start) (min t.time stop) later
