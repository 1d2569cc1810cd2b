-- ===== src/Echo.antt =====
-- tools/echo_trace.py: the traces of the echo fixture and the chains of events in them.
pub mod Chains
pub mod Tail
pub mod Phases
pub mod Report
pub mod Counts
use telar.Prelude.{
  ℕ, ◌+◌, String, Bool, true, false, not, ◌&&◌, ◌||◌, Option, none, some, List, [], ◌∷◌, ◌++◌, map,
  select, any, length, drop, somes, str_eq, ◌==◌, if◌then◌else◌,
}
use telar.Prelude.Int.{pos, leb_ℤ, eq_ℤ, ℤ}
use telar.Prelude.Result.{
  Result, ok, err, Exception, key_error, value_error, index_error, ◌>>=◌, raise_if,
}

-- A row of a trace file: the keys that the tools read.
pub record TraceRow : Type 0 where
  pub dropped : Option ℤ
  pub ns : Option ℤ
  pub event : Option String
  pub thread : Option ℤ
  pub cpu_ns : Option ℤ

pub record Event : Type 0 where
  pub event : Option String
  pub ns : ℤ
  pub thread : Option ℤ
  pub cpu_ns : Option ℤ
  pub process : String

abbrev pub chain_tags : List String
chain_tags =
    "host_read" ∷ "client_input" ∷ "client_send_start" ∷ "runtime_read" ∷ "runtime_dispatch"
    ∷ "input_forward" ∷ "foreground_start" ∷ "foreground_done" ∷ "input_observed"
    ∷ "pty_write_queued" ∷ "pty_write_start" ∷ "pty_read" ∷ "output_dispatch" ∷ "vt_queued"
    ∷ "vt_start" ∷ "vt_done" ∷ "ingest_dispatch" ∷ "runtime_send_start" ∷ "client_read"
    ∷ "client_frame" ∷ "compose_start" ∷ "host_flush_start" ∷ "host_flush_done" ∷ []

abbrev pub optional_tags : List String
optional_tags =
    "input_forward" ∷ "foreground_start" ∷ "foreground_done" ∷ "input_observed" ∷ "pty_write_queued"
    ∷ "vt_queued" ∷ []

-- `rows[-1]`
abbrev last_row : List TraceRow → Option TraceRow
last_row [] = none
last_row (row ∷ []) = some row
last_row (row ∷ next ∷ rows) = last_row (next ∷ rows)

-- Not `'dropped' not in rows[-1] or rows[-1]['dropped']`.
abbrev is_whole : TraceRow → Bool
is_whole row = elim row.dropped [ none ↦ false | some count ↦ eq_ℤ count (pos 0) ]

abbrev timed : String → TraceRow → Option Event
timed process row = elim row.ns [
  | none ↦ none
  | some ns ↦ some (record {
    event = row.event;
    ns = ns;
    thread = row.thread;
    cpu_ns = row.cpu_ns;
    process = process;
  })
]

unfoldable pub read_traces : List (String × List TraceRow) → Result Exception (List Event)
read_traces [] = ok []
read_traces ((process, rows) ∷ paths) = elim (last_row rows) [
  | none ↦ err index_error
  | some row ↦ elim (is_whole row) [
    | false ↦ err value_error
    | true ↦ read_traces paths >>= λ events. ok (somes (map (timed process) rows) ++ events)
  ]
]

-- `events.sort(key=lambda row: row['ns'])`, which keeps the order of equals
abbrev pub insert_event : Event → List Event → List Event
insert_event e [] = e ∷ []
insert_event e (f ∷ events) =
    let rest = insert_event e events in if leb_ℤ e.ns f.ns then e ∷ f ∷ events else f ∷ rest

unfoldable pub sort_events : List Event → List Event
sort_events [] = []
sort_events (e ∷ events) = insert_event e (sort_events events)

unfoldable pub load_events : List (String × List TraceRow) → Result Exception (List Event)
unfolding read_traces sort_events
load_events paths = raise_if (not (length paths == 2)) value_error >>= λ two.
    read_traces paths >>= λ events. ok (sort_events events)

abbrev pub is_event : String → Event → Bool
is_event tag e = elim e.event [ none ↦ false | some name ↦ str_eq name tag ]

abbrev pub is_unnamed : Event → Bool
is_unnamed e = elim e.event [ none ↦ true | some name ↦ false ]

-- The tags that some event has, and those that are not optional.
unfoldable pub chain_of : List Event → List String
chain_of events =
    select (λ tag. any (is_event tag) events || not (any (λ other. str_eq other tag) optional_tags))
      chain_tags

-- A block opens at each `host_read`; `block` is the open one, and the one that is open in the end
-- is dropped.
unfoldable pub blocks_from : List Event → List Event → List (List Event)
blocks_from block [] = []
blocks_from [] (e ∷ events) =
    let opened = blocks_from (e ∷ []) events in
    let passed = blocks_from [] events in if is_event "host_read" e then opened else passed
blocks_from (b ∷ block) (e ∷ events) =
    let closed = (b ∷ block) ∷ blocks_from (e ∷ []) events in
    let longer = blocks_from (b ∷ block ++ e ∷ []) events in
    if is_event "host_read" e then closed else longer

abbrev begin_with : Event → Option (List Event) → Option (List Event)
begin_with e none = none
begin_with e (some later) = some (e ∷ later)

-- The first events with the tags in turn.
unfoldable pub match_chain : List String → List Event → Option (List Event)
match_chain [] events = some []
match_chain (tag ∷ tags) [] = none
match_chain (tag ∷ tags) (e ∷ events) =
    let taken = begin_with e (match_chain tags events) in
    let passed = match_chain (tag ∷ tags) events in if is_event tag e then taken else passed

-- `xs[::2]`
abbrev pub every_other : {A : Type 0} → List A → List A
every_other [] = []
every_other (x ∷ []) = x ∷ []
every_other (x ∷ y ∷ xs) = x ∷ every_other xs

-- The chains of the blocks behind the 20 pairs of the warm-up, of the keys or of their erasures.
unfoldable pub chains_in : Bool → List Event → List (List Event)
unfolding chain_of blocks_from match_chain
chains_in erase events = somes (
    map (match_chain (chain_of events))
      (every_other (drop (40 + (if erase then 1 else 0)) (blocks_from [] events))))

unfoldable pub fixture_chains :
    List (String × List TraceRow) → Bool → Result Exception (List (List Event))
unfolding load_events chains_in
fixture_chains paths erase = load_events paths >>= λ events.
    raise_if (any is_unnamed events) key_error >>= λ named.
    raise_if (length (chains_in erase events) == 0) value_error >>= λ found.
    ok (chains_in erase events)
