-- ===== src/SlotSummary.antt =====
-- tools/linux_slot_summary.py: from the events of a probe to the time a dirty view waited for a slot.
-- The probe writes whole numbers of nanoseconds and of flags.
pub mod Gate
pub mod Frames
pub mod Accounting
pub mod Within
pub mod Matching
pub mod Waits
pub mod Occupied
use Prim.Native.Nat.{bit_and}
use telar.Prelude.{
  ℕ, suc, ◌+◌, ◌-◌, min, Bool, true, false, Option, none, some, List, [], ◌∷◌, ◌++◌, ltb, leb, ◌==◌,
  if◌then◌else◌,
}

pub record Event : Type 0 where
  pub kind : ℕ
  pub time : ℕ
  pub token : ℕ
  pub detail : ℕ

-- `(time, flags, deadline)`
pub record Snapshot : Type 0 where
  pub time : ℕ
  pub flags : ℕ
  pub deadline : ℕ

-- What the probe says of one native frame; a key that is not set is `none`.
pub record Native : Type 0 where
  pub token : ℕ
  pub render_begin : Option ℕ
  pub render_end : Option ℕ
  pub quads : Option ℕ
  pub enqueue : Option ℕ
  pub complete : Option ℕ
  pub outcome : Option ℕ
  pub worker_begin : Option ℕ
  pub worker_end : Option ℕ

pub record Folded : Type 0 where
  pub native : List Native
  pub render_begin : Option ℕ
  pub snapshots : List Snapshot
  pub last_ns : ℕ

-- `sorted(events, key=time)`, which is stable.
unfoldable pub insert_event : Event → List Event → List Event
insert_event event [] = event ∷ []
insert_event event (first ∷ events) =
    let rest = insert_event event events in
    if ltb first.time event.time then first ∷ rest else event ∷ first ∷ events

unfoldable pub sort_events : List Event → List Event
unfolding insert_event
sort_events [] = []
sort_events (event ∷ events) = insert_event event (sort_events events)

abbrev new_native : ℕ → Native
new_native token = record {
  token = token;
  render_begin = none;
  render_end = none;
  quads = none;
  enqueue = none;
  complete = none;
  outcome = none;
  worker_begin = none;
  worker_end = none;
}

-- `native.setdefault(token, {"token": token})`, changed by `f`
unfoldable pub change_native : ℕ → (Native → Native) → List Native → List Native
change_native token f [] = f (new_native token) ∷ []
change_native token f (entry ∷ entries) =
    let rest = change_native token f entries in
    if entry.token == token then f entry ∷ entries else entry ∷ rest

abbrev pub last_snapshot : List Snapshot → Option Snapshot
last_snapshot [] = none
last_snapshot (s ∷ []) = some s
last_snapshot (s ∷ t ∷ ts) = last_snapshot (t ∷ ts)

-- `flags & ~4`
abbrev pub not_busy : ℕ → ℕ
not_busy flags = flags - bit_and flags 4

-- A frame that completes frees the slot: the last snapshot again, at that time and not busy.
unfoldable pub free_slot : ℕ → List Snapshot → List Snapshot
free_slot time snapshots = elim (last_snapshot snapshots) [
  | none ↦ snapshots
  | some s ↦
      snapshots ++ record { time = time; flags = not_busy s.flags; deadline = s.deadline } ∷ []
]

-- What an event of kind 2 to 6 sets in its frame.
abbrev note_event : Option ℕ → Event → Native → Native
note_event render_begin event entry =
    if event.kind == 2
    then record entry {
      render_end = some event.time;
      render_begin = render_begin;
      quads = some event.detail;
    }
    else if event.kind == 3
    then record entry { enqueue = some event.time }
    else if event.kind == 4
    then record entry { complete = some event.time; outcome = some event.detail }
    else if event.kind == 5
    then record entry { worker_begin = some event.time }
    else record entry { worker_end = some event.time }

unfoldable pub fold_event : Event → Folded → Folded
unfolding change_native free_slot
fold_event event s =
    if event.kind == 0
    then record s {
      snapshots =
          s.snapshots
          ++ record { time = event.time; flags = event.token; deadline = event.detail } ∷ [];
    }
    else if event.kind == 1
    then record s { render_begin = some event.time }
    else if leb event.kind 6
    then record s {
      native = change_native event.token (note_event s.render_begin event) s.native;
      snapshots = (if event.kind == 4 then free_slot event.time s.snapshots else s.snapshots);
    }
    else if event.kind == 7
    then record s { last_ns = min s.last_ns event.time }
    else s

unfoldable pub fold_events : List Event → Folded → Folded
unfolding fold_event
fold_events [] s = s
fold_events (event ∷ events) s = fold_events events (fold_event event s)

-- The state before the first event, where the interval ends at `last_ns` at the latest.
unfoldable pub read_events : List Event → ℕ → Folded
unfolding sort_events fold_events
read_events events last_ns =
    fold_events (sort_events events)
      (record { native = []; render_begin = none; snapshots = []; last_ns = last_ns })
