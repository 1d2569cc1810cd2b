-- ===== src/EchoPath/Samples.antt =====
-- The samples of a control: how many there are, and what the screen shows at each of them.
use telar.EchoPath.Oracle.{feed}
use telar.EchoPath.Exchange.{
  Turn, silent, broken, arrived, Host, World, Outcome, ExchangeError, pty_error, oracle_error,
  Sample, is_visible, passed, after_feed, consume_turn, consume_until, consume, exchange, patience,
  ◌>>=◌, tilde, erase, take_sample, keep, samples_from, measure_control, warmup_samples,
}
use telar.EchoPath.Visible.{Ends, ok-Ends, oracle-Ends, exchange-IsExchanged, feed_ends}
use telar.Prelude.{
  subst, ℕ, zero, suc, ◌+◌, ◌-◌, ◌≤◌, ◌<◌, ◌≡◌, refl, sym, ap, ◌∙◌, true, false, List, [], ◌∷◌,
  ◌++◌, length, drop, leb, ltb, Bool-cases, inl, inr, arith,
}
use telar.Prelude.Result.{ok, err, Result-cases, ok_or_err, err-injective, ok-injective}

warm_over : (index : ℕ) → leb 20 index ≡ true → 20 ≤ index
warm_over index h = ground arith

still_warm : (index : ℕ) → leb 20 index ≡ false → index < 20
still_warm index h = ground arith

module _ (host : Host) where
  open host use {probe, typing, turn}

  -- A chain of calls returns only where its first call does, and then as the rest does.
  then_returns :
      {A B : Type 0} (first : Outcome A) (rest : A → World → Outcome B) (b : B)
      → (◌>>=◌ host first rest).1 ≡ ok b
      → (a : A) × (first.1 ≡ ok a)
        × ((rest a first.0).1 ≡ ok b)
        × (◌>>=◌ host first rest ≡ rest a first.0)
  then_returns (w, err e) rest b h = absurd (ok_or_err (sym h))
  then_returns (w, ok a) rest b h = (a, refl, h, refl)

  then-Ends :
      {A B : Type 0} (first : Outcome A) (rest : A → World → Outcome B)
      → Ends first.1
      → ((a : A) (w : World) → Ends (rest a w).1)
      → Ends (◌>>=◌ host first rest).1
  then-Ends (w, err e) rest ends later =
      (λ h. ends.0 (ap err (err-injective h)), λ h. ends.1 (ap err (err-injective h)))
  then-Ends (w, ok a) rest ends later = later a w

  -- Waiting ends, time does not go backwards, nothing is typed, and a return comes at the deadline or
  -- later.
  record ConsumeEnd (deadline : ℕ) (w : World) (end : Outcome (Unit {0})) : Type 0 where
    later : w.now ≤ end.0.now
    ends : Ends end.1
    waited : end.1 ≡ ok tt → deadline ≤ end.0.now
    typed : end.0.typed ≡ w.typed

  raised-ConsumeEnd :
      {deadline : ℕ} {w : World} (end : World) (e : ExchangeError)
      → Ends {A = Unit {0}} (err e)
      → w.now ≤ end.now
      → end.typed ≡ w.typed
      → ConsumeEnd deadline w (end, err e)
  raised-ConsumeEnd end e ends later typed = record {
    later = later;
    ends = ends;
    waited = λ h. absurd (ok_or_err (sym h));
    typed = typed;
  }

  over-ConsumeEnd : {deadline : ℕ} (w : World) → deadline ≤ w.now → ConsumeEnd deadline w (w, ok tt)
  over-ConsumeEnd w over = record {
    later = omega arith;
    ends = ok-Ends tt;
    waited = λ h. over;
    typed = refl;
  }

  behind-ConsumeEnd :
      {deadline : ℕ} (w middle : World) (end : Outcome (Unit {0}))
      → w.now ≤ middle.now
      → middle.typed ≡ w.typed
      → ConsumeEnd deadline middle end
      → ConsumeEnd deadline w end
  behind-ConsumeEnd w middle end later typed r = record {
    later = omega (arith, later, r.later);
    ends = r.ends;
    waited = r.waited;
    typed = r.typed ∙ typed;
  }

  consume_turn-ConsumeEnd :
      (deadline : ℕ) (again : World → Outcome (Unit {0})) (w : World)
      → ((w' : World) → w.now < w'.now → ConsumeEnd deadline w' (again w'))
      → (t : Turn) → ConsumeEnd deadline w (consume_turn host again t w)
  unfolding consume_turn
  consume_turn-ConsumeEnd deadline again w next (silent waited) =
      behind-ConsumeEnd w (passed waited w) _ (omega arith) refl (next _ (omega arith))
  consume_turn-ConsumeEnd deadline again w next (broken waited) =
      raised-ConsumeEnd _ pty_error (λ h. cc, λ h. cc) (omega arith) refl
  consume_turn-ConsumeEnd deadline again w next (arrived waited bytes worked) =
      elim (Result-cases (feed probe bytes w.oracle).1) [
        | inl (done, f) ↦
            rw (f, consume_turn)
              (behind-ConsumeEnd w (after_feed host waited bytes worked w) _ (omega arith) refl
                (next _ (omega arith)))
        | inr (e, f) ↦
            rw (f, consume_turn)
              (raised-ConsumeEnd _ (oracle_error e)
                (oracle-Ends e (λ h. feed_ends host bytes w.oracle (f ∙ ap err h))) (omega arith)
                refl)
      ]

  consume_until-ConsumeEnd :
      (fuel deadline : ℕ) (w : World)
      → deadline ≤ w.now + fuel
      → ConsumeEnd deadline w (consume_until host deadline fuel w)
  unfolding consume_until
  consume_until-ConsumeEnd zero deadline w enough =
      let over : ltb w.now deadline ≡ false = ground (arith, enough) in
      rw (over, consume_until) (over-ConsumeEnd w (omega (arith, enough)))
  consume_until-ConsumeEnd (suc fuel) deadline w enough = elim (Bool-cases (ltb w.now deadline)) [
    | inr over ↦ rw (over, consume_until) (over-ConsumeEnd w (ground (arith, over)))
    | inl early ↦
        rw (early, consume_until)
          (consume_turn-ConsumeEnd deadline (consume_until host deadline fuel) w
            (λ w' later. consume_until-ConsumeEnd fuel deadline w' (omega (arith, enough, later)))
            (turn w.step))
  ]

  consume-ConsumeEnd :
      (duration : ℕ) (w : World) → ConsumeEnd (w.now + duration) w (consume host duration w)
  unfolding consume
  consume-ConsumeEnd duration w =
      consume_until-ConsumeEnd (suc duration) (w.now + duration) w (omega arith)

  module _ (gap initial : ℕ) where
    -- The world in which the key is shown, and the one in which it is erased.
    abbrev pub shown_in : World → World
    shown_in w = (exchange host (tilde host) (initial + 1) w).0

    abbrev pub erased_in : World → World
    erased_in w = (exchange host (erase host) initial (shown_in w)).0

    -- A sample is taken from `w` to `end`: its times are in order; the key is typed, and the screen
    -- has one tilde more than at first, when the bytes have arrived; backspace is typed, and it has
    -- as many as at first; and the gap is waited for behind that.
    pub record IsTaken (w : World) (sample : Sample) (end : World) : Type 0 where
      pub started : sample.started_ns ≡ w.now
      pub sent : sample.started_ns ≤ sample.sent_ns
      pub arrived : sample.sent_ns < sample.arrived_ns
      pub some_read : 0 < sample.reads
      pub shown : is_visible (initial + 1) (shown_in w).oracle ≡ true
      pub shown_later : sample.arrived_ns ≤ (shown_in w).now
      pub erased : is_visible initial (erased_in w).oracle ≡ true
      pub erased_later : (shown_in w).now ≤ (erased_in w).now
      pub typed : end.typed ≡ (w.typed ++ tilde host ∷ []) ++ erase host ∷ []
      pub paused : (erased_in w).now + gap ≤ end.now

    -- Samples that are taken one behind the other.
    pub data AreTaken : World → List Sample → World → Type 0 where
      none_taken : (w : World) → AreTaken w [] w
      taken :
          (w middle : World) {end : World} (sample : Sample) (samples : List Sample)
          → IsTaken w sample middle
          → AreTaken middle samples end
          → AreTaken w (sample ∷ samples) end

    take_sample-IsTaken :
        (w : World) (sample : Sample)
        → (take_sample host gap initial w).1 ≡ ok sample
        → IsTaken w sample (take_sample host gap initial w).0
    unfolding take_sample
    take_sample-IsTaken w sample h =
        let typed = exchange host (tilde host) (initial + 1) w in
        let gone = exchange host (erase host) initial typed.0 in
        let (pressed, a, h1, e1) = then_returns typed _ sample h in
        let (erased, b, h2, e2) = then_returns gone _ sample h1 in
        let (done, c, h3, e3) = then_returns (consume host gap gone.0) _ sample h2 in
        let x = (exchange-IsExchanged host (tilde host) (initial + 1) w).returned pressed a in
        let y = (exchange-IsExchanged host (erase host) initial typed.0).returned erased b in
        let z = consume-ConsumeEnd gap gone.0 in
        subst (λ end. IsTaken w sample end.0) (sym (e1 ∙ e2 ∙ e3))
          (subst (λ s. IsTaken w s (consume host gap gone.0).0) (ok-injective h3)
            (record {
              started = x.started;
              sent = omega (arith, x.started, x.sent_later);
              arrived = x.arrived;
              some_read = x.some_read;
              shown = x.visible;
              shown_later = x.ended;
              erased = y.visible;
              erased_later = omega (arith, y.started, y.sent_later, y.arrived, y.ended);
              typed = z.typed ∙ y.typed ∙ ap (λ l. l ++ erase host ∷ []) x.typed;
              paused = z.waited c;
            }))

    take_sample-Ends : (w : World) → Ends (take_sample host gap initial w).1
    unfolding take_sample
    take_sample-Ends w =
        then-Ends (exchange host (tilde host) (initial + 1) w) _
          (exchange-IsExchanged host (tilde host) (initial + 1) w).ends
          λ pressed w'.
            then-Ends (exchange host (erase host) initial w') _
              (exchange-IsExchanged host (erase host) initial w').ends
              λ gone w''.
                then-Ends (consume host gap w'') _ (consume-ConsumeEnd gap w'').ends
                  λ done last. ok-Ends pressed

    -- The samples that are kept are the last of those taken.
    record AreKept (left index : ℕ) (w end : World) (samples : List Sample) : Type 0 where
      all : List Sample
      in_turn : AreTaken w all end
      size : length all ≡ left
      kept : samples ≡ drop (20 - index) all

    samples_from-AreKept :
        (left index : ℕ) (w : World) (samples : List Sample)
        → (samples_from host gap initial left index w).1 ≡ ok samples
        → AreKept left index w (samples_from host gap initial left index w).0 samples
    unfolding samples_from
    samples_from-AreKept zero index w samples h = record {
      all = [];
      in_turn = none_taken w;
      size = refl;
      kept = sym (ok-injective h) ∙ drop_nil (20 - index);
    }
      where
        drop_nil : (k : ℕ) → ◌≡◌ {A = List Sample} [] (drop k [])
        drop_nil zero = refl
        drop_nil (suc k) = refl
    samples_from-AreKept (suc left) index w samples h =
        let first = take_sample host gap initial w in
        let (sample, a, h1, e1) = then_returns first _ samples h in
        let rest = samples_from host gap initial left (suc index) first.0 in
        let (others, b, h2, e2) = then_returns rest _ samples h1 in
        let t = take_sample-IsTaken w sample a in
        let inner = samples_from-AreKept left (suc index) first.0 others b in
        subst (λ end. AreKept (suc left) index w end.0 samples) (sym (e1 ∙ e2))
          (record {
            all = sample ∷ inner.all;
            in_turn = taken w first.0 sample inner.all t inner.in_turn;
            size = ap suc inner.size;
            kept = sym (ok-injective h2) ∙ keep_last sample others inner.all inner.kept;
          })
      where
        keep_last :
            (sample : Sample) (others all : List Sample)
            → others ≡ drop (20 - suc index) all
            → keep host index sample others ≡ drop (20 - index) (sample ∷ all)
        keep_last sample others all kept = elim (Bool-cases (leb (warmup_samples host) index)) [
          | inl counts ↦
              let none_left : 20 - suc index ≡ 0 = omega (arith, warm_over index counts) in
              let all_left : 20 - index ≡ 0 = omega (arith, warm_over index counts) in
              rw counts (
                ap (λ l. sample ∷ l) (kept ∙ ap (λ k. drop k all) none_left)
                ∙ ap (λ k. drop k (sample ∷ all)) (sym all_left))
          | inr warm ↦
              let one_less : 20 - index ≡ suc (20 - suc index) =
                omega (arith, still_warm index warm) in
              rw warm (kept ∙ ap (λ k. drop k (sample ∷ all)) (sym one_less))
        ]

    samples_from-Ends :
        (left index : ℕ) (w : World) → Ends (samples_from host gap initial left index w).1
    unfolding samples_from
    samples_from-Ends zero index w = ok-Ends _
    samples_from-Ends (suc left) index w =
        then-Ends (take_sample host gap initial w) _ (take_sample-Ends w) λ sample w'.
          then-Ends (samples_from host gap initial left (suc index) w') _
            (samples_from-Ends left (suc index) w') λ samples last. ok-Ends _

  -- The world behind the first two seconds.
  abbrev pub settled_in : World → World
  settled_in w = (consume host (patience host) w).0

  -- The samples of a control: two seconds pass first, and the screen that they leave is the one that
  -- every key starts from; `count` and the warm-up are taken, one behind the other, and those behind
  -- the warm-up are kept.
  pub record AreInOrder (gap count : ℕ) (w end : World) (samples : List Sample) : Type 0 where
    pub settled : w.now + patience host ≤ (settled_in w).now
    pub all : List Sample
    pub in_turn : AreTaken gap (settled_in w).oracle.count (settled_in w) all end
    pub size : length all ≡ count + 20
    pub kept : samples ≡ drop 20 all

  -- The measurement of a control ends even where the terminal puts out something for ever, as its
  -- deadlines stop it. Where it returns, two seconds passed first, and each key, the ones of the
  -- warm-up too, was typed, was seen as one tilde more than these two seconds left, was erased, was
  -- seen to be gone, and was followed by the gap, with the times of its sample in order and a read;
  -- the samples are those of the keys behind the warm-up of 20, as many as were asked for.
  pub measure_control-AreInOrder :
      (gap count : ℕ) (w : World)
      → Ends (measure_control host gap count w).1
        × ((samples : List Sample)
            → (measure_control host gap count w).1 ≡ ok samples
            → AreInOrder gap count w (measure_control host gap count w).0 samples)
  unfolding measure_control
  measure_control-AreInOrder gap count w = (
    then-Ends (consume host (patience host) w) _ (consume-ConsumeEnd (patience host) w).ends
        λ done settled.
          samples_from-Ends gap settled.oracle.count (count + warmup_samples host) 0 settled,
    λ samples h.
        let (done, a, h1, e1) = then_returns (consume host (patience host) w) _ samples h in
        let inner =
          samples_from-AreKept gap (settled_in w).oracle.count (count + warmup_samples host) 0
            (settled_in w) samples h1 in
        subst (λ end. AreInOrder gap count w end.0 samples) (sym e1)
          (record {
            settled = (consume-ConsumeEnd (patience host) w).waited a;
            all = inner.all;
            in_turn = inner.in_turn;
            size = inner.size;
            kept = inner.kept;
          }),
  )
