-- ===== src/Cleanup/Safe.antt =====
-- The cleanup spares the runner, ends, and leaves no process of the sessions.
use telar.Cleanup.{
  CleanupError, kill, cleanup_sessions, then_await, kill_members, refuses_process, refuses_session,
  shares, pause, survivors, out_of_fuel, session_members, is_empty_list, Ending, in_sessions,
  await_end, World, is_runner, System,
}
use mathlib.Core.List.{append_assoc}
use telar.Prelude.{
  subst, [], ◌≢◌, ◌++◌, if◌then◌else◌, ℕ, zero, suc, ◌+◌, ◌*◌, ◌≤◌, ◌≡◌, refl, sym, ◌∙◌, ◌⊎◌, inl,
  inr, Bool-cases, Bool, true, false, not, ◌&&◌, Option, none, some, List, [], ◌∷◌, ltb, arith,
}
use telar.Prelude.Int.{ℤ}

in_time : (b : Bool) (now deadline : ℕ) → deadline ≤ now → (b && ltb now deadline) ≡ false
in_time true now deadline h = ground arith
in_time false now deadline h = refl

errors_apart :
    (e : CleanupError)
    → ◌≡◌ {A = Option CleanupError} (some e) (some refuses_process)
    → ◌≡◌ {A = Option CleanupError} (some e) (some out_of_fuel)
    → ⊥
errors_apart e a b = cc

module _ (sys : System) where
  open sys use {own_session, parent_session}

  -- The processes that were killed, the last first, each of them not the runner or its parent, and
  -- of one of the sessions in the world in which it was killed: the one with just those before it
  -- killed.
  abbrev pub AreSpared : List ℤ → World → List ℤ → Type 0
  AreSpared sessions w [] = Unit
  AreSpared sessions w (pid ∷ before) =
      (is_runner sys pid ≡ false)
      × (in_sessions sys (record w { killed = before ++ w.killed }) sessions pid ≡ true)
      × AreSpared sessions w before

  -- What is killed after `pid`.
  killed_after :
      (sessions : List ℤ) (pid : ℤ) (w : World) (newly : List ℤ)
      → is_runner sys pid ≡ false
      → in_sessions sys w sessions pid ≡ true
      → AreSpared sessions (kill sys pid w) newly
      → AreSpared sessions w (newly ++ pid ∷ [])
  killed_after sessions pid w [] other asked a = (other, asked, tt)
  killed_after sessions pid w (p ∷ before) other asked (spared, of_session, a) = (
    spared,
    subst (λ l. in_sessions sys (record w { killed = l }) sessions p ≡ true)
        (sym (append_assoc before (pid ∷ []) w.killed)) of_session,
    killed_after sessions pid w before other asked a,
  )

  -- How a cleanup ends: the killed processes are those of before and some that may be killed; it
  -- returns only without members of the sessions; and where a session is the runner's, nothing was
  -- killed.
  pub record IsClean (sessions : List ℤ) (w : World) (end : Ending) : Type 0 where
    pub newly : List ℤ
    pub killed : end.0.killed ≡ newly ++ w.killed
    pub spared : AreSpared sessions w newly
    pub fueled : end.1 ≢ some out_of_fuel
    pub clean :
        end.1 ≡ none
        → (is_empty_list sessions ≡ true)
          ⊎ (is_empty_list (session_members sys end.0 sessions) ≡ true)
    pub refused : shares sys sessions ≡ true → (newly ≡ []) × (end.1 ≡ some refuses_session)

  record IsAwaited (sessions : List ℤ) (w : World) (end : Ending) : Type 0 where
    same : end.0.killed ≡ w.killed
    fueled : end.1 ≢ some out_of_fuel
    clean : end.1 ≡ none → is_empty_list (session_members sys end.0 sessions) ≡ true

  ended-IsAwaited :
      (sessions : List ℤ) (w : World)
      → IsAwaited sessions w
          (w, if is_empty_list (session_members sys w sessions) then none else some survivors)
  ended-IsAwaited sessions w = elim (Bool-cases (is_empty_list (session_members sys w sessions))) [
    | inl e ↦ rw e (record { same = refl; fueled = λ h. cc; clean = λ h. e })
    | inr e ↦ rw e (record { same = refl; fueled = λ h. cc; clean = λ h. cc })
  ]

  await_end-IsAwaited :
      (fuel : ℕ) (sessions : List ℤ) (deadline : ℕ) (w : World)
      → deadline ≤ w.now + fuel * 50
      → IsAwaited sessions w (await_end sys (suc fuel) sessions deadline w)
  unfolding await_end
  await_end-IsAwaited zero sessions deadline w enough =
      let over =
        in_time (not (is_empty_list (session_members sys w sessions))) w.now deadline
          (omega (arith, enough)) in
      rw (over, await_end) (ended-IsAwaited sessions w)
  await_end-IsAwaited (suc fuel) sessions deadline w enough =
      elim (Bool-cases
        (not (is_empty_list (session_members sys w sessions)) && ltb w.now deadline)) [
          | inr over ↦ rw (over, await_end) (ended-IsAwaited sessions w)
          | inl waits ↦
              let later =
                await_end-IsAwaited fuel sessions deadline (pause sys w) (omega (arith, enough)) in
              rw (waits, await_end)
                (record { same = later.same; fueled = later.fueled; clean = later.clean })
        ]

  -- What a round of kills leaves.
  record IsKilled (sessions : List ℤ) (w : World) (end : Ending) : Type 0 where
    newly : List ℤ
    killed : end.0.killed ≡ newly ++ w.killed
    spared : AreSpared sessions w newly
    stopped : (end.1 ≡ none) ⊎ (end.1 ≡ some refuses_process)

  kill_members-IsKilled :
      (sessions members : List ℤ) (w : World)
      → IsKilled sessions w (kill_members sys sessions members w)
  unfolding kill_members
  kill_members-IsKilled sessions [] w = record {
    newly = [];
    killed = refl;
    spared = tt;
    stopped = inl refl;
  }
  kill_members-IsKilled sessions (pid ∷ members) w = elim (Bool-cases (is_runner sys pid)) [
    | inl runner ↦
        rw (runner, kill_members)
          (record { newly = []; killed = refl; spared = tt; stopped = inr refl })
    | inr other ↦ elim (Bool-cases (in_sessions sys w sessions pid)) [
      | inl inside ↦
          let rest = kill_members-IsKilled sessions members (kill sys pid w) in
          rw (other, inside, kill_members)
            (record {
              newly = rest.newly ++ pid ∷ [];
              killed = rest.killed ∙ sym (append_assoc rest.newly (pid ∷ []) w.killed);
              spared = killed_after sessions pid w rest.newly other inside rest.spared;
              stopped = rest.stopped;
            })
      | inr outside ↦
          let rest = kill_members-IsKilled sessions members w in
          rw (other, outside, kill_members)
            (record {
              newly = rest.newly;
              killed = rest.killed;
              spared = rest.spared;
              stopped = rest.stopped;
            })
    ]
  ]

  then_await-IsClean :
      (sessions : List ℤ) (w : World) (end : Ending)
      → shares sys sessions ≡ false
      → IsKilled sessions w end
      → IsClean sessions w (then_await sys sessions end)
  then_await-IsClean sessions w (w', some e) apart k = record {
    newly = k.newly;
    killed = k.killed;
    spared = k.spared;
    fueled = λ h. elim k.stopped [ inl a ↦ cc | inr b ↦ errors_apart e b h ];
    clean = λ h. cc;
    refused = λ h. cc;
  }
  then_await-IsClean sessions w (w', none) apart k =
      let waited = await_end-IsAwaited 40 sessions (w'.now + 2000) w' (omega arith) in
      record {
        newly = k.newly;
        killed = waited.same ∙ k.killed;
        spared = k.spared;
        fueled = waited.fueled;
        clean = λ h. inr (waited.clean h);
        refused = λ h. cc;
      }

  -- However the processes come and go, `cleanup_sessions` ends by itself; it kills only processes
  -- that are not the runner or its parent and that were of one of the sessions when they were
  -- killed, as it asks for each just before; it returns only where there is no session or no process of one is left; and it kills
  -- nothing where a session is the runner's or its parent's.
  pub cleanup_sessions-IsClean :
      (sessions : List ℤ) (w : World) → IsClean sessions w (cleanup_sessions sys sessions w)
  unfolding cleanup_sessions
  cleanup_sessions-IsClean sessions w = elim (Bool-cases (shares sys sessions)) [
    | inl shared ↦
        rw (shared, cleanup_sessions)
          (record {
            newly = [];
            killed = refl;
            spared = tt;
            fueled = λ h. cc;
            clean = λ h. cc;
            refused = λ h. (refl, refl);
          })
    | inr apart ↦ elim (Bool-cases (is_empty_list sessions)) [
      | inl empty ↦
          rw (apart, empty, cleanup_sessions)
            (record {
              newly = [];
              killed = refl;
              spared = tt;
              fueled = λ h. cc;
              clean = λ h. inl empty;
              refused = λ h. cc;
            })
      | inr some_session ↦
          rw (apart, some_session, cleanup_sessions)
            (then_await-IsClean sessions w
              (kill_members sys sessions (session_members sys w sessions) w) apart
              (kill_members-IsKilled sessions (session_members sys w sessions) w))
    ]
  ]
