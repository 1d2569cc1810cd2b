-- ===== src/Echo/Counts.antt =====
-- How many samples an analysis describes.
use telar.Echo.{load_events, fixture_chains, Event}
use telar.Echo.Report.{
  Row, events_of, first_phases, send_spans, items_from, Analysis, Description, analyze_run,
  slow_rows, Run, rows_from, sort_rows, insert_row, describe,
}
use telar.Echo.Tail.{at_fraction, chain_count, correlate, as_tail, Sample, Percentiles, percentiles}
use telar.Number.{Number}
use telar.Prelude.{
  false, Bool, ℕ, suc, ◌+◌, ◌≡◌, refl, ap, sym, ◌∙◌, subst, List, [], ◌∷◌, length, map, min, max,
  arith, length-map, length-drop, ◌==◌, not,
}
use telar.Prelude.Result.{guard-eq-ok, ok-injective, >>=-eq-ok, ok_or_err, ok}

equal : (a b : ℕ) → not (a == b) ≡ false → a ≡ b
equal a b h = ground arith

module _ (n : Number) where
  percentiles-count :
      (values : List n.Num) (p : Percentiles n)
      → percentiles n values ≡ ok p
      → p.count ≡ length values
  unfolding percentiles
  percentiles-count [] p h = absurd (ok_or_err (sym h))
  percentiles-count (v ∷ values) p h =
      let (p50, a, h1) = >>=-eq-ok (at_fraction n (v ∷ values) 50) _ h in
      let (p95, b, h2) = >>=-eq-ok (at_fraction n (v ∷ values) 95) _ h1 in
      let (p99, c, h3) = >>=-eq-ok (at_fraction n (v ∷ values) 99) _ h2 in
      ap (λ q. q.count) (sym (ok-injective h3))

  describe-count :
      (rows : List (Row n)) (d : Description n)
      → describe n rows ≡ ok d
      → d.latency.count ≡ length rows
  unfolding describe
  describe-count rows d h =
      let (latency, a, h1) =
        >>=-eq-ok (percentiles n (map (λ row. row.correlated.total_us) rows)) _ h in
      let (submit, b, h2) =
        >>=-eq-ok (percentiles n (map (λ row. row.correlated.submit_us) rows)) _ h1 in
      let (input, c, h3) =
        >>=-eq-ok (percentiles n (map (λ row. row.correlated.input_boundary_us) rows)) _ h2 in
      let (output, e, h4) =
        >>=-eq-ok (percentiles n (map (λ row. row.correlated.output_boundary_us) rows)) _ h3 in
      let (items, f, h5) = >>=-eq-ok (items_from n 0 (first_phases n rows) rows) _ h4 in
      ap (λ q. q.latency.count) (sym (ok-injective h5))
      ∙ percentiles-count _ latency a
      ∙ length-map (λ row. row.correlated.total_us) rows

  length-insert_row :
      (r : Row n) (rows : List (Row n)) → length (insert_row n r rows) ≡ suc (length rows)
  unfolding insert_row
  length-insert_row r [] = refl
  length-insert_row r (s ∷ rows) = ground (arith, length-insert_row r rows)

  length-sort_rows : (rows : List (Row n)) → length (sort_rows n rows) ≡ length rows
  unfolding sort_rows
  length-sort_rows [] = refl
  length-sort_rows (r ∷ rows) =
      length-insert_row r (sort_rows n rows) ∙ ap suc (length-sort_rows rows)

  module _ (is_close : n.Num → n.Num → Bool) (hundredth : ℕ → ℕ) where
    rows_from-length :
        (index : ℕ) (events : List Event) (samples : List (Sample n)) (chains : List (List Event))
        (rows : List (Row n))
        → length chains ≡ length samples
        → rows_from n is_close hundredth index events samples chains ≡ ok rows
        → length rows ≡ length samples
    unfolding rows_from
    rows_from-length index events [] chains rows e h = ap length (sym (ok-injective h))
    rows_from-length index events (s ∷ samples) [] rows e h = absurd (omega (arith, e))
    rows_from-length index events (s ∷ samples) (chain ∷ chains) rows e h =
        let (c, a, h1) = >>=-eq-ok (correlate n is_close s chain) _ h in
        let (sends, b, h2) =
          >>=-eq-ok (send_spans n (events_of n is_close hundredth s events)) _ h1 in
        let (rest, r, h3) =
          >>=-eq-ok (rows_from n is_close hundredth (index + 1) events samples chains) _ h2 in
        ap length (sym (ok-injective h3))
        ∙ ap suc (rows_from-length (index + 1) events samples chains rest (omega (arith, e)) r)

    -- The numbers of samples of the descriptions.
    pub record IsCounted (run : Run n) (a : Analysis n) : Type 0 where
      pub described : a.whole.latency.count ≡ length run.samples
      pub slow :
          a.slowest.latency.count
          ≡ min (length run.samples) (max 1 (hundredth (length run.samples)))
      pub listed : length a.slow_samples ≡ a.slowest.latency.count

    slow_rows-length :
        (rows : List (Row n))
        → length (slow_rows n is_close hundredth rows)
          ≡ min (length rows) (max 1 (hundredth (length rows)))
    unfolding slow_rows
    slow_rows-length rows = length-drop _ (sort_rows n rows) ∙ omega (arith, length-sort_rows rows)

    counted_of :
        (run : Run n) (rows : List (Row n)) (whole slowest : Description n) (a : Analysis n)
        → length rows ≡ length run.samples
        → whole.latency.count ≡ length rows
        → slowest.latency.count ≡ length (slow_rows n is_close hundredth rows)
        → record {
          whole = whole;
          slowest = slowest;
          slow_samples = slow_rows n is_close hundredth rows;
        }
          ≡ a
        → IsCounted run a
    counted_of run rows whole slowest a lengths w s same = subst (IsCounted run) same (record {
      described = w ∙ lengths;
      slow = s ∙ slow_rows-length rows ∙ ap (λ k. min k (max 1 (hundredth k))) lengths;
      listed = sym s;
    })

    -- Where a run is analysed, every sample of it is described, once; the slowest hundredth, and
    -- one sample at least if there is any, is described again and listed.
    pub analyze_run-IsCounted :
        (run : Run n) (a : Analysis n)
        → analyze_run n is_close hundredth run ≡ ok a
        → IsCounted run a
    unfolding analyze_run
    analyze_run-IsCounted run a h =
        let (chains, b, h1) = >>=-eq-ok (as_tail (fixture_chains run.traces false)) _ h in
        let (counted, h2) =
          guard-eq-ok (not (length chains == length run.samples)) chain_count _ h1 in
        let (events, c, h3) = >>=-eq-ok (as_tail (load_events run.traces)) _ h2 in
        let (rows, r, h4) =
          >>=-eq-ok (rows_from n is_close hundredth 0 events run.samples chains) _ h3 in
        let (whole, w, h5) = >>=-eq-ok (describe n rows) _ h4 in
        let (slowest, s, h6) = >>=-eq-ok (describe n (slow_rows n is_close hundredth rows)) _ h5 in
        let all_of = rows_from-length 0 events run.samples chains rows (equal _ _ counted) r in
        counted_of run rows whole slowest a all_of (describe-count rows whole w)
          (describe-count _ slowest s) (ok-injective h6)
