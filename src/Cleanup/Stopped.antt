-- ===== src/Cleanup/Stopped.antt =====
-- How `stop_runtime` ends, from what the cleanup promises.
use telar.Cleanup.{
  World, System, CleanupError, Ending, out_of_fuel, shares_session, is_empty_list, owned_sessions,
  session_members, cleanup_sessions, shares,
}
use telar.Cleanup.Safe.{AreSpared, IsClean, cleanup_sessions-IsClean}
use telar.Cleanup.Descendants.{descendants}
use telar.Cleanup.Stop.{
  Stopped, StopEnd, stopped, raised, slept, await_exit, describe, close_stop, then_clean, asked,
  stop_runtime,
}
use telar.Prelude.{
  String, subst, ℕ, zero, suc, ◌+◌, ◌*◌, ◌≤◌, ◌≡◌, ◌≢◌, ◌⊎◌, refl, sym, ap, ◌∙◌, Bool, true, false,
  not, ◌&&◌, none, some, List, [], ◌++◌, ltb, Bool-cases, inl, inr, arith,
}
use telar.Prelude.Int.{ℤ}

abbrev get_stopped : Stopped → StopEnd → Stopped
get_stopped d (stopped result) = result
get_stopped d (raised e) = d

stopped-injective : {a b : Stopped} → stopped a ≡ stopped b → a ≡ b
stopped-injective {a} h = ap (get_stopped a) h

abbrev get_raised : CleanupError → StopEnd → CleanupError
get_raised d (stopped result) = d
get_raised d (raised e) = e

raised-injective : {a b : CleanupError} → raised a ≡ raised b → a ≡ b
raised-injective {a} h = ap (get_raised a) h

module _ (sys : System) where
  open sys use {process_table, runtimes, stop_answer}

  -- The sessions of the runtime and of all that came from it.
  abbrev pub sessions_of : World → List ℤ
  sessions_of w = (owned_sessions sys w (descendants (process_table w) (runtimes w))).0

  -- The wait has no effect but time, and is over when no runtime is left or the time is up.
  record IsExit (deadline : ℕ) (w : World) (end : World × Bool) : Type 0 where
    killed : end.0.killed ≡ w.killed
    fueled : end.1 ≡ true
    over : is_empty_list (runtimes end.0) ≡ false → deadline ≤ end.0.now

  await_exit-IsExit :
      (fuel deadline : ℕ) (w : World)
      → deadline ≤ w.now + fuel * 20
      → IsExit deadline w (await_exit sys fuel deadline w)
  unfolding await_exit
  await_exit-IsExit zero deadline w enough = record {
    killed = refl;
    fueled = late (is_empty_list (runtimes w)) (omega (arith, enough));
    over = λ left. omega (arith, enough);
  }
    where
      late : (b : Bool) → deadline ≤ w.now → not (ltb w.now deadline && not b) ≡ true
      late true le = ground arith
      late false le = ground arith
  await_exit-IsExit (suc fuel) deadline w enough =
      elim (Bool-cases (ltb w.now deadline && not (is_empty_list (runtimes w)))) [
        | inl waits ↦
            let r = await_exit-IsExit fuel deadline (slept sys w) (omega (arith, enough)) in
            rw (waits, await_exit) (record { killed = r.killed; fueled = r.fueled; over = r.over })
        | inr done ↦
            rw (done, await_exit)
              (record { killed = refl; fueled = refl; over = λ left. ground (arith, done, left) })
      ]

  -- The world in which the wait for the runtime is over, before anything is killed.
  abbrev pub waited : World → World
  waited w = (await_exit sys 250 (w.now + 5000) (asked sys w)).0

  -- How a stop ends: what it kills are processes that may be killed, of the sessions of the runtime
  -- and its descendants; where one of these sessions is the runner's, it does nothing and raises; and
  -- a result is returned only with no process of the sessions left, and says whether the runtime was
  -- gone when the wait was over, which it is with the runtime there only after five seconds.
  pub record IsStopped (w : World) (end : World × StopEnd) : Type 0 where
    pub newly : List ℤ
    pub killed : end.0.killed ≡ newly ++ w.killed
    pub spared : AreSpared sys (sessions_of w) (waited w) newly
    pub fueled : end.1 ≢ raised out_of_fuel
    pub refused : shares sys (sessions_of w) ≡ true → end ≡ (w, raised shares_session)
    pub clean :
        (result : Stopped)
        → end.1 ≡ stopped result
        → (is_empty_list (sessions_of w) ≡ true)
          ⊎ (is_empty_list (session_members sys end.0 (sessions_of w)) ≡ true)
    pub exited :
        (result : Stopped)
        → end.1 ≡ stopped result
        → (result.exited ≡ is_empty_list (runtimes (waited w)))
          × (result.exited ≡ false → w.now + 5000 ≤ (waited w).now)

  cleaned-IsStopped :
      (w : World) (result : Stopped) (end : Ending)
      → shares sys (sessions_of w) ≡ false
      → (waited w).killed ≡ w.killed
      → result.exited ≡ is_empty_list (runtimes (waited w))
      → (is_empty_list (runtimes (waited w)) ≡ false → w.now + 5000 ≤ (waited w).now)
      → IsClean sys (sessions_of w) (waited w) end
      → IsStopped w (close_stop sys result end)
  cleaned-IsStopped w result (last, none) apart same exit over c = record {
    newly = c.newly;
    killed = c.killed ∙ ap (λ l. c.newly ++ l) same;
    spared = c.spared;
    fueled = λ h. cc;
    refused = λ s. cc (s, apart);
    clean = λ r h. c.clean refl;
    exited = λ r h. (
      ap (λ t. t.exited) (sym (stopped-injective h)) ∙ exit,
      λ left. over (sym exit ∙ ap (λ t. t.exited) (stopped-injective h) ∙ left),
    );
  }
  cleaned-IsStopped w result (last, some e) apart same exit over c = record {
    newly = c.newly;
    killed = c.killed ∙ ap (λ l. c.newly ++ l) same;
    spared = c.spared;
    fueled = λ h. c.fueled (ap some (raised-injective h));
    refused = λ s. cc (s, apart);
    clean = λ r h. cc;
    exited = λ r h. cc;
  }

  -- A wait that is over is followed by the cleanup.
  then_clean-true :
      (started : ℕ) (before sessions : List ℤ) (answer : ℤ × String) (wait : World × Bool)
      → wait.1 ≡ true
      → then_clean sys started before sessions answer wait
        ≡ close_stop sys
            (describe sys started before answer (session_members sys wait.0 sessions) wait.0)
            (cleanup_sessions sys sessions wait.0)
  then_clean-true started before sessions answer (seen, false) over = cc
  then_clean-true started before sessions answer (seen, true) over = refl

  -- Whatever the system shows, `stop_runtime` ends by itself. It kills only processes of the
  -- sessions of the runtime and its descendants, none of them the runner or its parent; it does
  -- nothing but raise where one of these sessions is the runner's or its parent's; and where it
  -- returns, no process of the sessions is left, and the result says whether the runtime was gone
  -- when the wait for it was over, before anything is killed; that wait takes five seconds unless
  -- the runtime is gone before.
  pub stop_runtime-IsStopped : (w : World) → IsStopped w (stop_runtime sys w)
  unfolding stop_runtime owned_sessions
  stop_runtime-IsStopped w = elim (Bool-cases (shares sys (sessions_of w))) [
    | inl shared ↦
        rw (shared, stop_runtime)
          (record {
            newly = [];
            killed = refl;
            spared = tt;
            fueled = λ h. cc;
            refused = λ s. refl;
            clean = λ r h. cc;
            exited = λ r h. cc;
          })
    | inr apart ↦
        let x = await_exit-IsExit 250 (w.now + 5000) (asked sys w) (omega arith) in
        rw (apart, stop_runtime)
          (subst (IsStopped w)
            (sym
              (then_clean-true _ _ _ _ (await_exit sys 250 (w.now + 5000) (asked sys w)) x.fueled))
            (cleaned-IsStopped w _ (cleanup_sessions sys (sessions_of w) (waited w)) apart x.killed
              refl x.over (cleanup_sessions-IsClean sys (sessions_of w) (waited w))))
  ]
