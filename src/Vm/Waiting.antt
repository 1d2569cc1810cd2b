-- ===== src/Vm/Waiting.antt =====
-- How the wait for the guest's SSH ends.
use telar.Text.Format.{concat}
use telar.Text.{codes, parse_int}
use telar.Placement.Paired.{lookup}
use telar.Prelude.Int.{ℤ}
use telar.Vm.Process.{probe, running_pid}
use telar.Vm.Guest.{wait_for_ssh, wait_loop, attempt, keygen_words, ssh_words, ssh_key, ssh_command}
use telar.Vm.Image.{Settings}
use text.Mathlib.TextLemmas.{cons-append}
use Prim.Native.String.{◌++◌ as text_append}
use Prim.Native.Char.{code}
use telar.Prelude.{
  zero, ◌∙◌, ap, sym, [], sym, ltb, suc, ◌*◌, ◌+◌, none, ◌≢◌, Option-cases, some, Option, false, [],
  ◌∷◌, ==_iff, Bool, ℕ, ◌≤◌, ◌≡◌, refl, ◌⊎◌, inl, inr, Bool-cases, String, List, arith, ◌==◌,
}
use telar.Prelude.Result.{ok_or_err, err-injective, Result, ok, err}
use telar.Vm.System.{
  serving, shut_seed, asked, printed, piped, spawned, ran, slept, Effect, return, continue,
  runtime_error, signalled, record_effect, out_of_fuel, Failure, kill, after_run, check_run, exists,
  World, System, called_process_error,
}

abbrev too_late : Failure
too_late = runtime_error "the machine did not accept SSH in time"

abbrev message : Failure → String
message (runtime_error text) = text
message e = ""

abbrev first_code : String → ℕ
first_code String.[] = 0
first_code (String.◌∷◌ c s) = code c

runtime-ne-fuel : (text : String) → runtime_error text ≢ out_of_fuel
runtime-ne-fuel text h = cc

called-ne-fuel : (code : ℕ) → called_process_error code ≢ out_of_fuel
called-ne-fuel code h = cc

called-ne-late : (code : ℕ) → called_process_error code ≢ too_late
called-ne-late code h = cc

stopped-ne-late :
    (log : String)
    → runtime_error (concat ("QEMU stopped while booting; see " ∷ log ∷ [])) ≢ too_late
unfolding concat
stopped-ne-late log h =
    let opened : concat ("QEMU stopped while booting; see " ∷ log ∷ [])
        ≡ String.◌∷◌ "Q" (text_append "EMU stopped while booting; see " (text_append log "")) =
      cons-append "Q" "EMU stopped while booting; see " _ in
    let apart : ◌≡◌ {A = ℕ} 81 116 =
      sym (ap first_code opened) ∙ ap (λ e. first_code (message e)) h in
    absurd (omega arith)

-- How many of the effects are sleeps.
abbrev pub sleeps : List Effect → ℕ
sleeps [] = 0
sleeps (slept seconds ∷ effects) = sleeps effects + 1
sleeps (ran words ∷ effects) = sleeps effects
sleeps (spawned words ∷ effects) = sleeps effects
sleeps (piped words members ∷ effects) = sleeps effects
sleeps (signalled pid signal ∷ effects) = sleeps effects
sleeps (printed text ∷ effects) = sleeps effects
sleeps (asked command arguments ∷ effects) = sleeps effects
sleeps (serving ∷ effects) = sleeps effects
sleeps (shut_seed ∷ effects) = sleeps effects

abbrev pub pauses : World → ℕ
pauses w = sleeps w.effects

module _ (cfg : Settings) (sys : System) where
  open sys use {completed}

  pub check_run-cases :
      (words : List String) (w : World)
      → ((check_run sys words w ≡ (after_run sys words w, ok tt)) × ((completed w words).code ≡ 0))
        ⊎ (check_run sys words w
            ≡ (after_run sys words w, err (called_process_error (completed w words).code)))
  unfolding check_run
  check_run-cases words w = elim (Bool-cases ((completed w words).code == 0)) [
    | inl e ↦ rw e (inl (refl, (==_iff _ _).0 e))
    | inr e ↦ rw e (inr refl)
  ]

  -- Either the name of the key, at no earlier time, or a failure of `ssh-keygen`, without a sleep.
  ssh_key-cases :
      (w : World)
      → ((w' : World) × (ssh_key cfg sys w ≡ (w', ok "id_ed25519"))
          × (w.now ≤ w'.now)
          × (pauses w' ≡ pauses w))
        ⊎ ((w' : World) × (code : ℕ) × (ssh_key cfg sys w ≡ (w', err (called_process_error code)))
            × (pauses w' ≡ pauses w))
  unfolding ssh_key
  ssh_key-cases w = elim (Bool-cases (exists "id_ed25519" w)) [
    | inl there ↦ rw there (inl (w, refl, omega arith, refl))
    | inr missing ↦ rw missing (elim (check_run-cases (keygen_words cfg) w) [
      | inl made ↦ inl (after_run sys (keygen_words cfg) w, rw made.0, omega arith, refl)
      | inr failed ↦ inr (
        after_run sys (keygen_words cfg) w,
        (completed w (keygen_words cfg)).code,
        rw failed,
        refl,
      )
    ])
  ]

  ssh_command-cases :
      (args : List String) (tty : Bool) (w : World)
      → ((w' : World) × (ssh_command cfg sys args tty w ≡ (w', ok (ssh_words cfg args tty)))
          × (w.now ≤ w'.now)
          × (pauses w' ≡ pauses w))
        ⊎ ((w' : World) × (code : ℕ) × (ssh_command cfg sys args tty w
              ≡ (w', err (called_process_error code)))
            × (pauses w' ≡ pauses w))
  unfolding ssh_command
  ssh_command-cases args tty w = elim (ssh_key-cases w) [
    | inl (w', e, later, same) ↦ inl (w', rw e, later, same)
    | inr (w', code, e, same) ↦ inr (w', code, rw e, same)
  ]

  -- A login that the guest accepted, as the last thing done.
  pub record IsAnswered (w : World) : Type 0 where
    pub seen : World
    pub accepted : (completed seen (ssh_words cfg ("true" ∷ []) false)).code ≡ 0
    pub last_done : w ≡ after_run sys (ssh_words cfg ("true" ∷ []) false) seen

  -- An attempt is answered or fails for good, without a sleep, or takes three seconds in one sleep.
  data AttemptEnd : World → World × Result Failure (Option (Unit {0})) → Type 0 where
    answered :
        {w w' : World} → IsAnswered w' → pauses w' ≡ pauses w → AttemptEnd w (w', ok (some tt))
    failed :
        {w w' : World} (e : Failure)
        → e ≢ out_of_fuel
        → e ≢ too_late
        → pauses w' ≡ pauses w
        → AttemptEnd w (w', err e)
    waited :
        {w w' : World}
        → w.now + 3000 ≤ w'.now
        → pauses w' ≡ suc (pauses w)
        → AttemptEnd w (w', ok none)

  kill-now : (pid : ℤ) (signal : ℕ) (w : World) → (kill sys pid signal w).0.now ≡ w.now
  unfolding kill
  kill-now pid signal w = refl

  -- Looking for the process takes no time and raises nothing.
  pub running_pid-cases :
      (w : World)
      → (w' : World) × (pid : Option ℤ) × (running_pid cfg sys w ≡ (w', ok pid)) × (w'.now ≡ w.now)
  unfolding running_pid probe kill
  running_pid-cases w = elim (Option-cases (lookup "qemu.pid" w.files)) [
    | inl e ↦ rw (e, running_pid) (w, none, refl, refl)
    | inr (text, e) ↦ elim (Option-cases (parse_int cfg.unicode (codes text))) [
      | inl p ↦ rw (e, running_pid, p) (w, none, refl, refl)
      | inr (pid, p) ↦ elim (Bool-cases (sys.delivered w pid 0)) [
        | inl d ↦
            rw (e, running_pid, p, probe, kill, d)
              (record_effect (signalled pid 0) w, some pid, refl, refl)
        | inr d ↦
            rw (e, running_pid, p, probe, kill, d)
              (record_effect (signalled pid 0) w, none, refl, refl)
      ]
    ]
  ]

  running_pid-pauses : (w : World) → pauses (running_pid cfg sys w).0 ≡ pauses w
  unfolding running_pid probe kill
  running_pid-pauses w = elim (Option-cases (lookup "qemu.pid" w.files)) [
    | inl e ↦ rw (e, running_pid) refl
    | inr (text, e) ↦ elim (Option-cases (parse_int cfg.unicode (codes text))) [
      | inl p ↦ rw (e, running_pid, p) refl
      | inr (pid, p) ↦ elim (Bool-cases (sys.delivered w pid 0)) [
        | inl d ↦ rw (e, running_pid, p, probe, kill, d) refl
        | inr d ↦ rw (e, running_pid, p, probe, kill, d) refl
      ]
    ]
  ]

  attempt-ends : (w : World) → AttemptEnd w (attempt cfg sys w)
  unfolding attempt
  attempt-ends w = elim (ssh_command-cases ("true" ∷ []) false w) [
    | inr (w', code, e, same) ↦ rw e (failed _ (called-ne-fuel code) (called-ne-late code) same)
    | inl (w', e, later, same) ↦
        let words = ssh_words cfg ("true" ∷ []) false in
        elim (Bool-cases ((completed w' words).code == 0)) [
          | inl zero_code ↦
              rw (e, zero_code)
                (answered
                  (record { seen = w'; accepted = (==_iff _ _).0 zero_code; last_done = refl })
                  same)
          | inr other ↦
              let (w'', pid, r, still) = running_pid-cases (after_run sys words w') in
              let quiet : pauses w'' ≡ pauses w =
                sym (ap (λ p. pauses p.0) r) ∙ running_pid-pauses (after_run sys words w') ∙ same in
              elim (Option-cases pid) [
                | inl gone ↦
                    rw (e, other, r, gone) (failed _ (runtime-ne-fuel _) (stopped-ne-late _) quiet)
                | inr (p, alive) ↦
                    rw (e, other, r, alive)
                      (waited (omega (arith, later, still)) (omega (arith, quiet)))
              ]
        ]
  ]

  -- What the wait leaves: it was given enough steps and slept at most so often, a return follows an
  -- accepted login, and the complaint about the time comes at the deadline or later.
  pub record IsWaited (most deadline : ℕ) (end : World × Result Failure (Unit {0})) : Type 0 where
    pub fueled : end.1 ≢ err out_of_fuel
    pub paused : pauses end.0 ≤ most
    pub answered : end.1 ≡ ok tt → IsAnswered end.0
    pub late : end.1 ≡ err too_late → deadline ≤ end.0.now

  module _ (fuel most deadline : ℕ) where
    wait_step-IsWaited :
        (w : World) (end : World × Result Failure (Option (Unit {0})))
        → AttemptEnd w end
        → pauses w ≤ most
        → ((w' : World)
            → w.now + 3000 ≤ w'.now
            → pauses w' ≡ suc (pauses w)
            → IsWaited most deadline (wait_loop cfg sys fuel deadline w'))
        → IsWaited most deadline (
            continue end
              (λ done. elim done [ some d ↦ return tt | none ↦ wait_loop cfg sys fuel deadline ]))
    wait_step-IsWaited w end (answered a same) few next = record {
      fueled = λ h. cc;
      paused = omega (arith, same, few);
      answered = λ h. a;
      late = λ h. absurd (ok_or_err h);
    }
    wait_step-IsWaited w end (failed e fueled in_time same) few next = record {
      fueled = λ h. fueled (err-injective h);
      paused = omega (arith, same, few);
      answered = λ h. absurd (ok_or_err (sym h));
      late = λ h. absurd (in_time (err-injective h));
    }
    wait_step-IsWaited w end (waited {w' = w'} later more) few next = next w' later more

  passed-IsWaited :
      (fuel most deadline : ℕ) (w : World)
      → ltb w.now deadline ≡ false
      → pauses w ≤ most
      → IsWaited most deadline (wait_loop cfg sys (suc fuel) deadline w)
  unfolding wait_loop
  passed-IsWaited fuel most deadline w passed few =
      rw (passed, wait_loop)
        (record {
          fueled = λ h. runtime-ne-fuel _ (err-injective h);
          paused = few;
          answered = λ h. absurd (ok_or_err (sym h));
          late = λ h. ground arith;
        })

  wait_loop-IsWaited :
      (turns fuel most deadline : ℕ) (w : World)
      → deadline ≤ w.now + turns * 3000
      → turns ≤ fuel
      → pauses w + turns ≤ most
      → IsWaited most deadline (wait_loop cfg sys (suc fuel) deadline w)
  unfolding wait_loop
  wait_loop-IsWaited zero fuel most deadline w enough fueled few =
      passed-IsWaited fuel most deadline w (ground arith) (omega (arith, few))
  wait_loop-IsWaited (suc turns) zero most deadline w enough fueled few =
      absurd (omega (arith, fueled))
  wait_loop-IsWaited (suc turns) (suc fuel) most deadline w enough fueled few =
      elim (Bool-cases (ltb w.now deadline)) [
        | inr passed ↦ passed-IsWaited (suc fuel) most deadline w passed (omega (arith, few))
        | inl early ↦
            rw (early, wait_loop)
              (wait_step-IsWaited (suc fuel) most deadline w (attempt cfg sys w) (attempt-ends w)
                (omega (arith, few))
                (λ w' later more.
                  wait_loop-IsWaited turns fuel most deadline w' (omega (arith, enough, later))
                    (omega (arith, fueled)) (omega (arith, few, more))))
      ]

  -- A third of a number, rounded up.
  third : (t : ℕ) → (k : ℕ) × (t ≤ k * 3) × (k * 3 ≤ t + 2)
  third zero = (0, omega arith, omega arith)
  third (suc zero) = (1, omega arith, omega arith)
  third (suc (suc zero)) = (1, omega arith, omega arith)
  third (suc (suc (suc t))) =
      let (k, above, below) = third t in (suc k, omega (arith, above), omega (arith, below))

  -- The wait for SSH ends by itself: it sleeps at most as often as a third of the timeout's seconds,
  -- rounded up, says. It returns only after a login that succeeded as the last thing done, and says
  -- that the machine did not accept SSH in time only when the timeout has passed. What it asks of the
  -- guest and of the host may be answered in any way.
  pub wait_for_ssh-IsWaited :
      (timeout : ℕ) (w : World)
      → (turns : ℕ) × (turns * 3 ≤ timeout + 2)
        × IsWaited (pauses w + turns) (w.now + timeout * 1000) (wait_for_ssh cfg sys timeout w)
  unfolding wait_for_ssh
  wait_for_ssh-IsWaited timeout w =
      let (turns, above, below) = third timeout in
      (
        turns,
        below,
        wait_loop-IsWaited turns timeout _ (w.now + timeout * 1000) w (omega (arith, above))
            (omega (arith, below)) (omega arith),
      )
