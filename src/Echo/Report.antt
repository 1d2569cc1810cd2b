-- ===== src/Echo/Report.antt =====
-- The spans of the sends, and what is reported of the samples of a run (tools/echo_tail.py).
use telar.Number.{Number}
use telar.Echo.{load_events, fixture_chains, is_event, Event}
use telar.Echo.Tail.{
  chain_count, correlate, Sample, percentiles, as_tail, Phase, Percentiles, Correlated, TailError,
  phase, same_optional,
}
use telar.Echo.{TraceRow}
use telar.Prelude.{
  get_elem?, somes, ℕ, ◌+◌, ◌-◌, String, Bool, true, false, not, ◌&&◌, Option, none, some, List, [],
  ◌∷◌, map, length, take, drop, max, str_eq, ◌==◌, if◌then◌else◌, count_if,
}
use telar.Prelude.Int.{leb_ℤ, ltb_ℤ, ℤ}
use telar.Prelude.Result.{index_error, or_raise, Result, ok, ◌>>=◌, raise_if}

-- What `pending` is keyed by: the process, the thread, and the tag without its last word.
pub record Key : Type 0 where
  pub process : String
  pub thread : Option ℤ
  pub base : String

abbrev same_key : Key → Key → Bool
same_key a b = str_eq a.process b.process && same_optional a.thread b.thread && str_eq a.base b.base

abbrev Pending : Type 0
Pending = List (Key × Event)

abbrev put_start : Key → Event → Pending → Pending
put_start k e [] = (k, e) ∷ []
put_start k e ((j, f) ∷ p) = if same_key j k then (k, e) ∷ p else (j, f) ∷ put_start k e p

-- `pending.pop(key)`: the event and what is left, if there is one.
abbrev keep_entry : Key × Event → Option (Event × Pending) → Option (Event × Pending)
keep_entry entry none = none
keep_entry entry (some (e, p)) = some (e, entry ∷ p)

abbrev pop_start : Key → Pending → Option (Event × Pending)
pop_start k [] = none
pop_start k ((j, f) ∷ p) =
    let later = keep_entry (j, f) (pop_start k p) in if same_key j k then some (f, p) else later

abbrev key_of : Event → String → Key
key_of e base = record { process = e.process; thread = e.thread; base = base }

-- The tags of the sends: what they are of, and whether they start one.
unfoldable pub send_of : Event → Option (Key × Bool)
send_of e =
    if is_event "client_send_start" e
    then some (key_of e "client_send", true)
    else if is_event "runtime_send_start" e
    then some (key_of e "runtime_send", true)
    else if is_event "client_send_done" e
    then some (key_of e "client_send", false)
    else if is_event "runtime_send_done" e
    then some (key_of e "runtime_send", false)
    else none

module _ (n : Number) where
  open n use {Num, lt}

  unfoldable pub spans_from : Pending → List Event → Result TailError (List (Phase n))
  unfolding send_of phase
  spans_from pending [] = ok []
  spans_from pending (e ∷ events) = elim (send_of e) [
    | none ↦ spans_from pending events
    | some (key, starts) ↦ elim starts [
      | true ↦ spans_from (put_start key e pending) events
      | false ↦ elim (pop_start key pending) [
        | none ↦ spans_from pending events
        | some (start, left) ↦
            phase n start e >>= λ span. spans_from left events >>= λ spans. ok (span ∷ spans)
      ]
    ]
  ]

  unfoldable pub send_spans : List Event → Result TailError (List (Phase n))
  unfolding spans_from
  send_spans events = spans_from [] events

  -- A row of a run: a correlated sample, its index and its sends.
  pub record Row : Type 0 where
    pub correlated : Correlated n
    pub index : ℕ
    pub sends : List (Phase n)

  pub record Item : Type 0 where
    pub wall : Percentiles n
    pub cpu : Option (Percentiles n × Percentiles n)

  pub record Description : Type 0 where
    pub latency : Percentiles n
    pub submit : Percentiles n
    pub input_boundary : Percentiles n
    pub output_boundary : Percentiles n
    pub items : List (Option String × Option String × Item)

  -- `row['phases'][index]` of every row
  phases_at : ℕ → List Row → Result TailError (List (Phase n))
  phases_at index [] = ok []
  phases_at index (row ∷ rows) =
      as_tail (or_raise (get_elem? row.correlated.phases_of index) index_error) >>= λ p.
      phases_at index rows >>= λ ps. ok (p ∷ ps)

  abbrev cpu_rows : List (Phase n) → List (Num × Num)
  cpu_rows group = somes (map (λ p. p.cpu_us) group)

  item_of : List (Phase n) → Result TailError Item
  unfolding percentiles
  item_of group = percentiles n (map (λ p. p.wall_us) group) >>= λ wall. elim (cpu_rows group) [
    | [] ↦ ok (record { wall = wall; cpu = none })
    | t ∷ times ↦ percentiles n (map (λ c. c.0) (t ∷ times)) >>= λ cpu.
        percentiles n (map (λ c. c.1) (t ∷ times)) >>= λ rest.
        ok (record { wall = wall; cpu = some (cpu, rest) })
  ]

  -- The items of the phases from an index on; of items with one name the last counts.
  unfoldable pub items_from :
      ℕ → List (Phase n) → List Row → Result TailError (List (Option String × Option String × Item))
  unfolding phases_at item_of
  items_from index [] rows = ok []
  items_from index (p ∷ ps) rows = phases_at index rows >>= λ group. item_of group >>= λ item.
      items_from (index + 1) ps rows >>= λ items. ok ((p.start_tag, p.end_tag, item) ∷ items)

  abbrev pub first_phases : List Row → List (Phase n)
  first_phases [] = []
  first_phases (row ∷ rows) = row.correlated.phases_of

  unfoldable pub describe : List Row → Result TailError Description
  unfolding percentiles items_from
  describe rows = percentiles n (map (λ row. row.correlated.total_us) rows) >>= λ latency.
      percentiles n (map (λ row. row.correlated.submit_us) rows) >>= λ submit.
      percentiles n (map (λ row. row.correlated.input_boundary_us) rows) >>= λ input_boundary.
      percentiles n (map (λ row. row.correlated.output_boundary_us) rows) >>= λ output_boundary.
      items_from 0 (first_phases rows) rows >>= λ items. ok (record {
        latency = latency;
        submit = submit;
        input_boundary = input_boundary;
        output_boundary = output_boundary;
        items = items;
      })

  -- `sorted(rows, key=lambda row: row['total_us'])`
  unfoldable pub insert_row : Row → List Row → List Row
  insert_row r [] = r ∷ []
  insert_row r (s ∷ rows) =
      if lt s.correlated.total_us r.correlated.total_us then s ∷ insert_row r rows else r ∷ s ∷ rows

  unfoldable pub sort_rows : List Row → List Row
  unfolding insert_row
  sort_rows [] = []
  sort_rows (r ∷ rows) = insert_row r (sort_rows rows)

  -- A run of `results.json` with the files of its trial.
  pub record Run : Type 0 where
    pub samples : List (Sample n)
    pub traces : List (String × List TraceRow)

  pub record Analysis : Type 0 where
    pub whole : Description
    pub slowest : Description
    pub slow_samples : List Row

  -- `math.ceil(count * .01)` and `math.isclose` are parameters.
  module _ (is_close : Num → Num → Bool) (hundredth : ℕ → ℕ) where
    -- The events of a sample: `events[bisect_left(...):bisect_right(...)]`.
    abbrev pub events_of : Sample n → List Event → List Event
    events_of sample events =
        let first = count_if (λ e. ltb_ℤ e.ns sample.started_ns) events in
        let last = count_if (λ e. leb_ℤ e.ns sample.arrived_ns) events in
        take (last - first) (drop first events)

    unfoldable pub rows_from :
        ℕ → List Event → List (Sample n) → List (List Event) → Result TailError (List Row)
    unfolding correlate send_spans
    rows_from index events [] chains = ok []
    rows_from index events (sample ∷ samples) [] = ok []
    rows_from index events (sample ∷ samples) (chain ∷ chains) =
        correlate n is_close sample chain >>= λ c. send_spans (events_of sample events) >>= λ sends.
        rows_from (index + 1) events samples chains >>= λ rows.
        ok (record { correlated = c; index = index; sends = sends } ∷ rows)

    -- The slowest hundredth, and one at least.
    unfoldable pub slow_rows : List Row → List Row
    unfolding sort_rows
    slow_rows rows = drop (length rows - max 1 (hundredth (length rows))) (sort_rows rows)

    unfoldable pub analyze_run : Run → Result TailError Analysis
    unfolding rows_from describe slow_rows fixture_chains load_events
    analyze_run run = as_tail (fixture_chains run.traces false) >>= λ chains.
        raise_if (not (length chains == length run.samples)) chain_count >>= λ counted.
        as_tail (load_events run.traces) >>= λ events.
        rows_from 0 events run.samples chains >>= λ rows. describe rows >>= λ whole.
        describe (slow_rows rows) >>= λ slowest.
        ok (record { whole = whole; slowest = slowest; slow_samples = slow_rows rows })
