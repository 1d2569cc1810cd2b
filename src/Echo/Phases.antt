-- ===== src/Echo/Phases.antt =====
-- The phases of a chain account for the time of the sample.
use telar.Number.{Number}
use telar.Echo.Chains.{fixture_chains-IsChain, InTime}
use telar.Echo.Tail.{
  has_thread, same_thread, cpu_of, TailError, epoch_mismatch, cpu_times, latency_mismatch,
  invalid_stimulus, non_monotonic_phase, micros, correlate_chain, Correlated, Phase, correlate,
  Sample, phases, phase, wall_ns, last_event, steps,
}
use telar.Echo.{fixture_chains, TraceRow, Event}
use telar.Prelude.{
  Bool-cases, inl, All-mono, inr, ◌≢◌, ◌∙◌, ap, ◌&&◌, ◌+◌, not, All, ◌≡◌, refl, sym, String, Bool,
  false, Option, none, some, List, [], ◌∷◌, map, arith,
}
use telar.Prelude.Int.{
  +ℤ_parts, eq_of_parts, -ℤ_parts, neg_part, leb_ℤ, ◌≤ℤ◌, pos_part, ltb_ℤ, ◌+ℤ◌, ◌-ℤ◌, pos, ℤ,
}
use telar.Prelude.Result.{
  ok_or_err, err-injective, Result-cases, ok-injective, >>=-eq-ok, guard-eq-ok, ok, err,
}

-- The nanoseconds of the phases, together.
unfoldable pub wall_sum : List (Event × Event) → ℤ
wall_sum [] = pos 0
wall_sum ((e, f) ∷ pairs) = wall_ns e f +ℤ wall_sum pairs

wall_sum-steps_parts :
    (e : Event) (chain : List Event)
    → pos_part (wall_sum (steps (e ∷ chain))) + neg_part (last_event e chain).ns + pos_part e.ns
      ≡ neg_part (wall_sum (steps (e ∷ chain))) + pos_part (last_event e chain).ns + neg_part e.ns
unfolding wall_sum steps last_event
wall_sum-steps_parts e [] = omega arith
wall_sum-steps_parts e (f ∷ chain) = omega (
  arith,
  wall_sum-steps_parts f chain,
  -ℤ_parts f.ns e.ns,
  +ℤ_parts (f.ns -ℤ e.ns) (wall_sum (steps (f ∷ chain))),
)

not_negative : (a b : ℤ) → b ≤ℤ a → ltb_ℤ (a -ℤ b) (pos 0) ≡ false
unfolding ◌-ℤ◌
not_negative a b h = ground arith

InTime-forward :
    (e : Event) (chain : List Event)
    → InTime (e ∷ chain)
    → All (λ p. ltb_ℤ (wall_ns p.0 p.1) (pos 0) ≡ false) (steps (e ∷ chain))
unfolding steps
InTime-forward e [] h = tt
InTime-forward e (f ∷ chain) h = (not_negative f.ns e.ns h.0.0, InTime-forward f chain h.1)

within_of : (a b c : ℤ) → not (leb_ℤ a b && leb_ℤ b c) ≡ false → (a ≤ℤ b) × (b ≤ℤ c)
within_of a b c h = ground arith

sum_of_parts :
    (started first last arrived walls : ℤ)
    → pos_part walls + neg_part last + pos_part first
      ≡ neg_part walls + pos_part last + neg_part first
    → ((first -ℤ started) +ℤ walls) +ℤ (arrived -ℤ last) ≡ arrived -ℤ started
sum_of_parts started first last arrived walls h = eq_of_parts _ _ (
    omega (
      arith,
      h,
      -ℤ_parts first started,
      -ℤ_parts arrived last,
      -ℤ_parts arrived started,
      +ℤ_parts (first -ℤ started) walls,
      +ℤ_parts ((first -ℤ started) +ℤ walls) (arrived -ℤ last),
    ))

forward_steps :
    (chain : List Event)
    → InTime chain
    → All (λ p. ltb_ℤ (wall_ns p.0 p.1) (pos 0) ≡ false) (steps chain)
unfolding steps
forward_steps [] h = tt
forward_steps (e ∷ chain) h = InTime-forward e chain h

module _ (n : Number) (is_close : n.Num → n.Num → Bool) where
  phase-wall :
      (start stop : Event) (p : Phase n)
      → phase n start stop ≡ ok p
      → p.wall_us ≡ micros n (wall_ns start stop)
  unfolding phase
  phase-wall start stop p h =
      let (forward, h1) =
        guard-eq-ok (ltb_ℤ (wall_ns start stop) (pos 0)) non_monotonic_phase _ h in
      let (cpu, c, h2) = >>=-eq-ok (cpu_times n start stop) _ h1 in
      ap (λ q. q.wall_us) (sym (ok-injective h2))

  phases-wall :
      (pairs : List (Event × Event)) (found : List (Phase n))
      → phases n pairs ≡ ok found
      → map (λ p. p.wall_us) found ≡ map (λ p. micros n (wall_ns p.0 p.1)) pairs
  unfolding phases
  phases-wall [] found h = ap (map (λ p. p.wall_us)) (sym (ok-injective h))
  phases-wall ((start, stop) ∷ pairs) found h =
      let (first, f, h1) = >>=-eq-ok (phase n start stop) _ h in
      let (rest, r, h2) = >>=-eq-ok (phases n pairs) _ h1 in
      ap (map (λ p. p.wall_us)) (sym (ok-injective h2))
      ∙ rw (phase-wall start stop first f, phases-wall pairs rest r) refl

  -- What a correlated sample says of its chain, from the event `e` on.
  pub record IsAccounted (sample : Sample n) (e : Event) (chain : List Event)
      (result : Correlated n) : Type 0 where
    pub within : (sample.started_ns ≤ℤ e.ns) × (e.ns ≤ℤ sample.arrived_ns)
    pub input_boundary : result.input_boundary_us ≡ micros n (e.ns -ℤ sample.started_ns)
    pub walls :
        map (λ p. p.wall_us) result.phases_of
        ≡ map (λ p. micros n (wall_ns p.0 p.1)) (steps (e ∷ chain))
    pub output_boundary :
        result.output_boundary_us ≡ micros n (sample.arrived_ns -ℤ (last_event e chain).ns)
    pub adds_up :
        ((e.ns -ℤ sample.started_ns) +ℤ wall_sum (steps (e ∷ chain)))
          +ℤ (sample.arrived_ns -ℤ (last_event e chain).ns)
        ≡ sample.arrived_ns -ℤ sample.started_ns

  -- Where a sample is correlated with a chain, the chain begins within the sample, and the time
  -- before it, the walls of its phases and the time behind it are, in nanoseconds, exactly the time
  -- of the sample.
  pub correlate-IsAccounted :
      (sample : Sample n) (e : Event) (chain : List Event) (result : Correlated n)
      → correlate n is_close sample (e ∷ chain) ≡ ok result
      → IsAccounted sample e chain result
  unfolding correlate correlate_chain
  correlate-IsAccounted sample e chain result h =
      let (a, h1) =
        guard-eq-ok
          (not (leb_ℤ sample.started_ns sample.sent_ns && leb_ℤ sample.sent_ns sample.arrived_ns))
          invalid_stimulus _ h in
      let (b, h2) =
        guard-eq-ok (not (is_close sample.us (micros n (sample.arrived_ns -ℤ sample.started_ns))))
          latency_mismatch _ h1 in
      let (c, h3) =
        guard-eq-ok (not (leb_ℤ sample.started_ns e.ns && leb_ℤ e.ns sample.arrived_ns))
          epoch_mismatch _ h2 in
      let (found, p, h4) = >>=-eq-ok (phases n (steps (e ∷ chain))) _ h3 in
      let same = ok-injective h4 in
      record {
        within = within_of sample.started_ns e.ns sample.arrived_ns c;
        input_boundary = ap (λ r. r.input_boundary_us) (sym same);
        walls =
            ap (λ r. map (λ q. q.wall_us) r.phases_of) (sym same)
            ∙ phases-wall (steps (e ∷ chain)) found p;
        output_boundary = ap (λ r. r.output_boundary_us) (sym same);
        adds_up = sum_of_parts _ _ _ _ _ (wall_sum-steps_parts e chain);
      }

  cpu_of-err :
      (start stop : Event) (from to : Option ℤ) (f : TailError)
      → cpu_of n start stop from to ≡ err f
      → f ≢ non_monotonic_phase
  unfolding cpu_of
  cpu_of-err start stop none to f h = absurd (ok_or_err h)
  cpu_of-err start stop (some from) none f h = absurd (ok_or_err h)
  cpu_of-err start stop (some from) (some to) f h = elim (Bool-cases (ltb_ℤ (to -ℤ from) (pos 0))) [
    | inl back ↦ λ same. cc (err-injective (rw (back, cpu_of) at h) ∙ same)
    | inr forward ↦ absurd (ok_or_err (rw (forward, cpu_of) at h))
  ]

  cpu_times-err :
      (start stop : Event) (f : TailError)
      → cpu_times n start stop ≡ err f
      → f ≢ non_monotonic_phase
  unfolding cpu_times
  cpu_times-err start stop f h =
      elim (Bool-cases (same_thread n start stop && has_thread n start)) [
        | inl both ↦ cpu_of-err start stop start.cpu_ns stop.cpu_ns f (rw (both, cpu_times) at h)
        | inr apart ↦ absurd (ok_or_err (rw (apart, cpu_times) at h))
      ]

  phases-forward :
      (pairs : List (Event × Event))
      → All (λ p. ltb_ℤ (wall_ns p.0 p.1) (pos 0) ≡ false) pairs
      → phases n pairs ≢ err non_monotonic_phase
  unfolding phases phase
  phases-forward [] forward h = cc
  phases-forward ((start, stop) ∷ pairs) forward h = elim (Result-cases (cpu_times n start stop)) [
    | inr (f, c) ↦
        cpu_times-err start stop f c (err-injective (rw (forward.0, phases, phase, c) at h))
    | inl (cpu, c) ↦ elim (Result-cases (phases n pairs)) [
      | inl (rest, r) ↦ ok_or_err (rw (forward.0, phases, phase, c, r) at h)
      | inr (f, r) ↦
          phases-forward pairs forward.1
            (r ∙ ap err (err-injective (rw (forward.0, phases, phase, c, r) at h)))
    ]
  ]

  -- A chain that `fixture_chains` found in the traces has no phase that runs backwards: whatever
  -- the thread clocks say, its phases are never refused as non-monotonic.
  pub fixture_chains-phases :
      (paths : List (String × List TraceRow)) (erase : Bool) (chains : List (List Event))
      → fixture_chains paths erase ≡ ok chains
      → All (λ chain. phases n (steps chain) ≢ err non_monotonic_phase) chains
  fixture_chains-phases paths erase chains h =
      let (events, loaded, found, good) = fixture_chains-IsChain paths erase chains h in
      All-mono (λ chain c. phases-forward (steps chain) (forward_steps chain c.in_time)) chains good
