-- ===== src/EchoPath/Visible.antt =====
-- What `exchange` returns, and that its deadline ends it.
use telar.EchoPath.{PathError, out_of_fuel}
use telar.EchoPath.Oracle.{Oracle, feed}
use telar.EchoPath.Framed.{answered, too_long, failed, feed-FeedEnd}
use telar.EchoPath.Exchange.{
  Turn, silent, broken, arrived, Host, World, Outcome, ExchangeError, pty_error, pty_closed,
  not_visible, no_fuel, oracle_error, Sample, is_visible, passed, after_feed, echo_turn, await_echo,
  exchange, patience,
}
use telar.Prelude.{
  ◌-◌, subst, ℕ, zero, suc, ◌+◌, ◌≤◌, ◌<◌, ◌≡◌, ◌≢◌, refl, sym, ap, ◌∙◌, true, false, some,
  Option-cases, List, [], ◌∷◌, ◌++◌, length, ltb, Bool-cases, inl, inr, arith,
}
use telar.Prelude.Result.{Result, ok, err, Result-cases, ok_or_err, err-injective, ok-injective}

-- A result that no loop of the model has cut short.
abbrev pub Ends : {A : Type 0} → Result ExchangeError A → Type 0
Ends r = (r ≢ err no_fuel) × (r ≢ err (oracle_error out_of_fuel))

abbrev get_oracle_error : ExchangeError → PathError
get_oracle_error (oracle_error e) = e
get_oracle_error _ = out_of_fuel

pub ok-Ends : {A : Type 0} (a : A) → Ends {A = A} (ok a)
ok-Ends a = (ok_or_err, ok_or_err)

pub oracle-Ends :
    {A : Type 0} (e : PathError) → e ≢ out_of_fuel → Ends {A = A} (err (oracle_error e))
oracle-Ends e other =
    (λ h. cc (err-injective h), λ h. other (ap get_oracle_error (err-injective h)))

-- The reads and the bytes of a turn.
abbrev pub reads_in : Turn → ℕ
reads_in (silent waited) = 0
reads_in (broken waited) = 0
reads_in (arrived waited bytes worked) = 1

abbrev pub bytes_in : Turn → ℕ
bytes_in (silent waited) = 0
bytes_in (broken waited) = 0
bytes_in (arrived waited bytes worked) = length bytes

module _ (host : Host) where
  open host use {probe, typing, turn}

  -- The reads and the bytes of `count` turns.
  abbrev pub reads_of : ℕ → ℕ → ℕ
  reads_of first zero = 0
  reads_of first (suc count) = reads_in (turn first) + reads_of (suc first) count

  abbrev pub bytes_of : ℕ → ℕ → ℕ
  bytes_of first zero = 0
  bytes_of first (suc count) = bytes_in (turn first) + bytes_of (suc first) count

  pub feed_ends : (bytes : List ℕ) (o : Oracle) → (feed probe bytes o).1 ≢ err out_of_fuel
  feed_ends bytes o h = elim (feed-FeedEnd probe bytes o) [
    | answered whole reply framed size done w c s ↦ ok_or_err (sym done ∙ h)
    | too_long long e ↦ cc (e, h)
    | failed sent rest e framed fuel raised w c s ↦ fuel (err-injective (sym raised ∙ h))
  ]

  -- A sample that is returned behind some turns, with the bytes and the reads before them.
  record IsEcho (expected wire reads : ℕ) (w end : World) (sample : Sample) : Type 0 where
    count : ℕ
    steps : end.step ≡ w.step + count
    reads_all : sample.reads ≡ reads + reads_of w.step count
    bytes_all : sample.wire_bytes ≡ wire + bytes_of w.step count
    some_read : 0 < reads_of w.step count
    some_byte : reads_of w.step count ≤ bytes_of w.step count
    visible : is_visible expected end.oracle ≡ true
    from : w.now < sample.arrived_ns
    until : sample.arrived_ns ≤ end.now
    typed : end.typed ≡ w.typed

  module _ (started sent expected deadline : ℕ) where
    record EchoEnd (wire reads : ℕ) (w : World) (end : Outcome Sample) : Type 0 where
      echo : (sample : Sample) → end.1 ≡ ok sample → IsEcho expected wire reads w end.0 sample
      times :
          (sample : Sample)
          → end.1 ≡ ok sample
          → (sample.started_ns ≡ started) × (sample.sent_ns ≡ sent)
      ends : Ends end.1
      late : end.1 ≡ err not_visible → deadline ≤ end.0.now

    raised-EchoEnd :
        {wire reads : ℕ} {w : World} (end : World) (e : ExchangeError)
        → Ends {A = Sample} (err e)
        → (e ≡ not_visible → deadline ≤ end.now)
        → EchoEnd wire reads w (end, err e)
    raised-EchoEnd end e ends late = record {
      echo = λ sample h. absurd (ok_or_err (sym h));
      times = λ sample h. absurd (ok_or_err (sym h));
      ends = ends;
      late = λ h. late (err-injective h);
    }

    -- A turn whose reads and bytes are counted, before the others.
    behind-EchoEnd :
        (wire reads : ℕ) (t : Turn) (w middle : World) (end : Outcome Sample)
        → turn w.step ≡ t
        → reads_in t ≤ bytes_in t
        → middle.step ≡ suc w.step
        → w.now ≤ middle.now
        → middle.typed ≡ w.typed
        → EchoEnd (wire + bytes_in t) (reads + reads_in t) middle end
        → EchoEnd wire reads w end
    behind-EchoEnd wire reads t w middle end is_t some_bytes step later typed e = record {
      echo = λ sample h.
          let i = e.echo sample h in
          let r : reads_of (suc w.step) i.count ≡ reads_of middle.step i.count =
            ap (λ s. reads_of s i.count) (sym step) in
          let b : bytes_of (suc w.step) i.count ≡ bytes_of middle.step i.count =
            ap (λ s. bytes_of s i.count) (sym step) in
          let one : reads_in (turn w.step) ≡ reads_in t = ap reads_in is_t in
          let some : bytes_in (turn w.step) ≡ bytes_in t = ap bytes_in is_t in
          record {
            count = suc i.count;
            steps = omega (arith, i.steps, step);
            reads_all = omega (arith, i.reads_all, r, one);
            bytes_all = omega (arith, i.bytes_all, b, some);
            some_read = omega (arith, i.some_read, r);
            some_byte = omega (arith, i.some_byte, some_bytes, r, b, one, some);
            visible = i.visible;
            from = omega (arith, i.from, later);
            until = i.until;
            typed = i.typed ∙ typed;
          };
      times = e.times;
      ends = e.ends;
      late = e.late;
    }

    shown-EchoEnd :
        (wire reads : ℕ) (w : World) (waited b : ℕ) (bytes : List ℕ) (worked : ℕ)
        → turn w.step ≡ arrived waited (b ∷ bytes) worked
        → is_visible expected (after_feed host waited (b ∷ bytes) worked w).oracle ≡ true
        → EchoEnd wire reads w (
          after_feed host waited (b ∷ bytes) worked w,
          ok (record {
            wire_bytes = wire + length (b ∷ bytes);
            reads = suc reads;
            started_ns = started;
            sent_ns = sent;
            arrived_ns = w.now + suc waited;
          }),
        )
    shown-EchoEnd wire reads w waited b bytes worked is_t visible =
        let one : reads_in (turn w.step) ≡ 1 = ap reads_in is_t in
        let some : bytes_in (turn w.step) ≡ length (b ∷ bytes) = ap bytes_in is_t in
        record {
          echo = λ sample h. subst (IsEcho expected wire reads w _) (ok-injective h) (record {
            count = 1;
            steps = omega arith;
            reads_all = omega (arith, one);
            bytes_all = omega (arith, some);
            some_read = omega (arith, one);
            some_byte = omega (arith, one, some);
            visible = visible;
            from = omega arith;
            until = omega arith;
            typed = refl;
          });
          times = λ sample h.
              subst (λ s. (s.started_ns ≡ started) × (s.sent_ns ≡ sent)) (ok-injective h)
                (refl, refl);
          ends = ok-Ends _;
          late = λ h. absurd (ok_or_err h);
        }

    echo_turn-EchoEnd :
        (again : ℕ → ℕ → World → Outcome Sample) (wire reads : ℕ) (w : World)
        → ((wire' reads' : ℕ) (w' : World)
            → w.now < w'.now
            → EchoEnd wire' reads' w' (again wire' reads' w'))
        → (t : Turn) → turn w.step ≡ t
        → EchoEnd wire reads w (echo_turn host started sent expected again wire reads t w)
    unfolding echo_turn
    echo_turn-EchoEnd again wire reads w next (silent waited) is_t =
        behind-EchoEnd wire reads (silent waited) w (passed waited w) _ is_t (omega arith) refl
          (omega arith) refl
          (subst (λ k. EchoEnd k (reads + 0) (passed waited w) (again wire reads (passed waited w)))
            (omega arith)
            (subst (λ k. EchoEnd wire k (passed waited w) (again wire reads (passed waited w)))
              (omega arith) (next wire reads (passed waited w) (omega arith))))
    echo_turn-EchoEnd again wire reads w next (broken waited) is_t =
        raised-EchoEnd _ pty_error (λ h. cc, λ h. cc) (λ h. cc)
    echo_turn-EchoEnd again wire reads w next (arrived waited [] worked) is_t =
        raised-EchoEnd _ pty_closed (λ h. cc, λ h. cc) (λ h. cc)
    echo_turn-EchoEnd again wire reads w next (arrived waited (b ∷ bytes) worked) is_t =
        let seen = after_feed host waited (b ∷ bytes) worked w in
        elim (Result-cases (feed probe (b ∷ bytes) w.oracle).1) [
          | inr (e, f) ↦
              rw (f, echo_turn)
                (raised-EchoEnd _ (oracle_error e)
                  (oracle-Ends e (λ h. feed_ends (b ∷ bytes) w.oracle (f ∙ ap err h))) (λ h. cc))
          | inl (done, f) ↦ elim (Bool-cases (is_visible expected seen.oracle)) [
            | inl shown ↦
                rw (f, shown, echo_turn)
                  (shown-EchoEnd wire reads w waited b bytes worked is_t shown)
            | inr hidden ↦
                rw (f, hidden, echo_turn)
                  (behind-EchoEnd wire reads (arrived waited (b ∷ bytes) worked) w seen _ is_t
                    (omega arith) refl (omega arith) refl
                    (subst
                      (λ k.
                        EchoEnd (wire + length (b ∷ bytes)) k seen
                          (again (wire + length (b ∷ bytes)) (suc reads) seen))
                      (omega arith)
                      (next (wire + length (b ∷ bytes)) (suc reads) seen (omega arith))))
          ]
        ]

    await_echo-EchoEnd :
        (fuel wire reads : ℕ) (w : World)
        → deadline ≤ w.now + fuel
        → EchoEnd wire reads w (await_echo host started sent expected deadline fuel wire reads w)
    unfolding await_echo
    await_echo-EchoEnd zero wire reads w enough =
        let over : ltb w.now deadline ≡ false = ground (arith, enough) in
        rw (over, await_echo)
          (raised-EchoEnd w not_visible (λ h. cc, λ h. cc) (λ h. omega (arith, enough)))
    await_echo-EchoEnd (suc fuel) wire reads w enough = elim (Bool-cases (ltb w.now deadline)) [
      | inr over ↦
          rw (over, await_echo)
            (raised-EchoEnd w not_visible (λ h. cc, λ h. cc) (λ h. ground (arith, over)))
      | inl early ↦
          rw (early, await_echo)
            (echo_turn-EchoEnd (await_echo host started sent expected deadline fuel) wire reads w
              (λ wire' reads' w' later.
                await_echo-EchoEnd fuel wire' reads' w' (omega (arith, enough, later)))
              (turn w.step) refl)
    ]

  -- A sample of an exchange from `w` to `end`: the key was typed once, at the times noted; the reads
  -- and the bytes are those of the turns between, with a byte in each read; and the screen that the
  -- oracle knows at the end is the one expected.
  pub record IsExchanged (stimulus : List ℕ) (expected : ℕ) (w end : World) (sample : Sample)
      : Type 0 where
    pub started : sample.started_ns ≡ w.now
    pub sent : typing w.now ≡ some (sample.sent_ns - w.now)
    pub sent_later : w.now ≤ sample.sent_ns
    pub arrived : sample.sent_ns < sample.arrived_ns
    pub ended : sample.arrived_ns ≤ end.now
    pub typed : end.typed ≡ w.typed ++ stimulus ∷ []
    pub visible : is_visible expected end.oracle ≡ true
    pub turns : ℕ
    pub steps : end.step ≡ w.step + turns
    pub reads : sample.reads ≡ reads_of w.step turns
    pub bytes : sample.wire_bytes ≡ bytes_of w.step turns
    pub some_read : 0 < sample.reads
    pub some_byte : sample.reads ≤ sample.wire_bytes

  -- How an exchange ends.
  pub record ExchangeEnd (stimulus : List ℕ) (expected : ℕ) (w : World) (end : Outcome Sample)
      : Type 0 where
    pub ends : Ends end.1
    pub returned :
        (sample : Sample) → end.1 ≡ ok sample → IsExchanged stimulus expected w end.0 sample
    pub late :
        end.1 ≡ err not_visible
        → (spent : ℕ) × (typing w.now ≡ some spent) × (w.now + spent + patience host ≤ end.0.now)

  -- An exchange ends even where the terminal puts out something for ever, as its deadline stops it:
  -- it raises its own `TimeoutError` only two seconds or more after the key was typed. Where it
  -- returns, the key was typed once, the sample's times are in order, its reads and bytes are those
  -- of the turns in between, at least one of each, and the oracle shows what was expected and no
  -- synchronized update.
  pub exchange-IsExchanged :
      (stimulus : List ℕ) (expected : ℕ) (w : World)
      → ExchangeEnd stimulus expected w (exchange host stimulus expected w)
  unfolding exchange
  exchange-IsExchanged stimulus expected w = elim (Option-cases (typing w.now)) [
    | inl refused ↦
        rw (refused, exchange)
          (record {
            ends = (λ h. cc, λ h. cc);
            returned = λ sample h. absurd (ok_or_err (sym h));
            late = λ h. cc;
          })
    | inr (spent, typed) ↦
        let begun = record w { now = w.now + spent; typed = w.typed ++ stimulus ∷ [] } in
        let e =
          await_echo-EchoEnd w.now (w.now + spent) expected (w.now + spent + patience host)
            (suc (patience host)) 0 0 begun (omega arith) in
        rw (typed, exchange)
          (record {
            ends = e.ends;
            returned = λ sample h.
                let i = e.echo sample h in
                let t = e.times sample h in
                let took : spent ≡ sample.sent_ns - w.now = omega (arith, t.1) in
                record {
                  started = t.0;
                  sent = typed ∙ ap some took;
                  sent_later = omega (arith, t.1);
                  arrived = omega (arith, t.1, i.from);
                  ended = i.until;
                  typed = i.typed;
                  visible = i.visible;
                  turns = i.count;
                  steps = i.steps;
                  reads = omega (arith, i.reads_all);
                  bytes = omega (arith, i.bytes_all);
                  some_read = omega (arith, i.reads_all, i.some_read);
                  some_byte = omega (arith, i.reads_all, i.bytes_all, i.some_byte);
                };
            late = λ h. (spent, typed, e.late h);
          })
  ]
