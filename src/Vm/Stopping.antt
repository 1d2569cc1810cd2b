-- ===== src/Vm/Stopping.antt =====
-- How `stop` ends.
use telar.Vm.Waiting.{running_pid-cases}
use telar.Prelude.Int.{ℤ}
use telar.Vm.Process.{running_pid}
use telar.Vm.Image.{Settings}
use telar.Vm.Monitor.{pass_over, qmp, stop, poll_stopped, converse, await_reply}
use telar.Vm.System.{
  wrong_type, no_desc, broken, silent, blocked, key_error, type_error, os_error, asked, continue,
  sleep, unreadable, value_error, kill, object, printed, record_effect, World, System, Reply,
  runtime_error, Failure,
}
use telar.Prelude.{
  [], ◌∷◌, subst, ℕ, zero, suc, ◌+◌, ◌*◌, ◌≤◌, ◌≡◌, inl, inr, Option-cases, none, some, String,
  List, arith,
}
use telar.Prelude.Result.{ok_or_err, err-injective, Result-cases, Result, ok, err}

-- What the monitor's replies can raise.
data IsReplyError : Failure → Type 0 where
  refused : (text : String) → IsReplyError (runtime_error text)
  reset : IsReplyError os_error
  garbled : IsReplyError value_error
  mistyped : IsReplyError type_error
  undescribed : IsReplyError key_error
  endless : IsReplyError blocked

-- What `stop` does not pass over.
pub data IsFatal : Failure → Type 0 where
  value_error_is : IsFatal value_error
  type_error_is : IsFatal type_error
  key_error_is : IsFatal key_error
  blocked_is : IsFatal blocked

await_reply-IsReplyError :
    (lines : List Reply) (e : Failure) → await_reply lines ≡ err e → IsReplyError e
unfolding await_reply
await_reply-IsReplyError [] e h = subst IsReplyError (err-injective h) garbled
await_reply-IsReplyError (unreadable ∷ lines) e h = subst IsReplyError (err-injective h) garbled
await_reply-IsReplyError (wrong_type ∷ lines) e h = subst IsReplyError (err-injective h) mistyped
await_reply-IsReplyError (no_desc ∷ lines) e h = subst IsReplyError (err-injective h) undescribed
await_reply-IsReplyError (broken ∷ lines) e h = subst IsReplyError (err-injective h) reset
await_reply-IsReplyError (silent ∷ lines) e h = subst IsReplyError (err-injective h) endless
await_reply-IsReplyError (object (some value) error ∷ lines) e h = absurd (ok_or_err h)
await_reply-IsReplyError (object none (some desc) ∷ lines) e h =
    subst IsReplyError (err-injective h) (refused desc)
await_reply-IsReplyError (object none none ∷ lines) e h = await_reply-IsReplyError lines e h

converse-IsReplyError : (lines : List Reply) (e : Failure) → converse lines ≡ err e → IsReplyError e
unfolding converse
converse-IsReplyError lines e h = elim (Result-cases (await_reply lines)) [
  | inr (e', a) ↦
      subst IsReplyError (err-injective (rw (a, converse) at h))
        (await_reply-IsReplyError lines e' a)
  | inl (first, a) ↦ elim (Result-cases (await_reply first.1)) [
    | inr (e', b) ↦
        subst IsReplyError (err-injective (rw (a, b, converse) at h))
          (await_reply-IsReplyError first.1 e' b)
    | inl (second, b) ↦ absurd (ok_or_err (rw (a, b, converse) at h))
  ]
]

module _ (cfg : Settings) (sys : System) where
  -- The process was looked for and not found, which left the second state.
  abbrev pub IsGone : World → World → Type 0
  IsGone seen left = running_pid cfg sys seen ≡ (left, ok none)

  -- How a stop from `w` ends: nothing ran; the process was found gone; the process that was found
  -- first was sent SIGTERM a minute later; or the monitor's replies to the request to power down ended
  -- it, with an exception or a read that never returns.
  pub data StopEnd (w : World) : World × Result Failure (Unit {0}) → Type 0 where
    none_ran :
        {w' : World} → IsGone w w' → StopEnd w (record_effect (printed "not running") w', ok tt)
    went_down :
        (seen : World) {left : World}
        → IsGone seen left
        → w.now ≤ seen.now
        → StopEnd w (left, ok tt)
    terminated :
        {first : World} (late : World) (pid : ℤ)
        → running_pid cfg sys w ≡ (first, ok (some pid))
        → w.now + 60000 ≤ late.now
        → StopEnd w (kill sys pid 15 late)
    fatal_reply :
        {first : World} (pid : ℤ) (lines : List Reply) {e : Failure}
        → running_pid cfg sys w ≡ (first, ok (some pid))
        → sys.monitor first ≡ some lines
        → converse lines ≡ err e
        → IsFatal e
        → StopEnd w (record_effect (asked "system_powerdown" []) first, err e)

  after_sleep : World → World
  after_sleep w = (sleep sys 1 w).0

  poll_stopped-StopEnd :
      (w first : World) (pid : ℤ)
      → running_pid cfg sys w ≡ (first, ok (some pid))
      → (left : ℕ) (now : World) → w.now + 60000 ≤ now.now + left * 1000
      → w.now ≤ now.now
      → StopEnd w (poll_stopped cfg sys left pid now)
  unfolding poll_stopped after_sleep
  poll_stopped-StopEnd w first pid found zero now enough later =
      terminated now pid found (omega (arith, enough))
  poll_stopped-StopEnd w first pid found (suc left) now enough later =
      let (seen, answer, r, still) = running_pid-cases cfg sys now in
      elim (Option-cases answer) [
        | inl gone ↦ rw (r, gone, poll_stopped) (went_down now (rw gone at r) later)
        | inr (p, alive) ↦
            rw (r, alive, poll_stopped)
              (poll_stopped-StopEnd w first pid found left (after_sleep seen)
                (omega (arith, still, enough)) (omega (arith, still, later)))
      ]

  raised-StopEnd :
      (w first : World) (pid : ℤ)
      → running_pid cfg sys w ≡ (first, ok (some pid))
      → first.now ≡ w.now
      → (lines : List Reply) → sys.monitor first ≡ some lines
      → (f : Failure) → IsReplyError f
      → converse lines ≡ err f
      → StopEnd w (
          continue
            (pass_over cfg sys (record_effect (asked "system_powerdown" []) first, err f))
            (λ asked_down. poll_stopped cfg sys 60 pid))
  raised-StopEnd w first pid found still lines e _ (refused text) c =
      poll_stopped-StopEnd w first pid found 60 (record_effect (asked "system_powerdown" []) first)
        (omega (arith, still)) (omega (arith, still))
  raised-StopEnd w first pid found still lines e _ reset c =
      poll_stopped-StopEnd w first pid found 60 (record_effect (asked "system_powerdown" []) first)
        (omega (arith, still)) (omega (arith, still))
  raised-StopEnd w first pid found still lines e _ garbled c =
      fatal_reply pid lines found e c value_error_is
  raised-StopEnd w first pid found still lines e _ mistyped c =
      fatal_reply pid lines found e c type_error_is
  raised-StopEnd w first pid found still lines e _ undescribed c =
      fatal_reply pid lines found e c key_error_is
  raised-StopEnd w first pid found still lines e _ endless c =
      fatal_reply pid lines found e c blocked_is

  -- `stop` does one of four things: it reports that nothing runs; it returns once the process is
  -- looked for and not found; a minute or more after it found a process, it sends SIGTERM to the
  -- process that it found first; or, behind its request to power down and without any signal, the
  -- monitor's replies end it with an exception that it does not pass over, or keep it for ever in a
  -- read that never returns. Apart from such a read it ends by itself.
  pub stop-StopEnd : (w : World) → StopEnd w (stop cfg sys w)
  unfolding stop qmp
  stop-StopEnd w =
      let (first, answer, r, still) = running_pid-cases cfg sys w in
      elim (Option-cases answer) [
        | inl gone ↦ rw (r, gone, stop) (none_ran (rw gone at r))
        | inr (pid, alive) ↦ elim (Option-cases (sys.monitor first)) [
          | inl e ↦
              rw (r, alive, stop, qmp, e)
                (poll_stopped-StopEnd w first pid (rw alive at r) 60
                  (record_effect (asked "system_powerdown" []) first) (omega (arith, still))
                  (omega (arith, still)))
          | inr (lines, e) ↦ elim (Result-cases (converse lines)) [
            | inl (reply, c) ↦
                rw (r, alive, stop, qmp, e, c)
                  (poll_stopped-StopEnd w first pid (rw alive at r) 60
                    (record_effect (asked "system_powerdown" []) first) (omega (arith, still))
                    (omega (arith, still)))
            | inr (f, c) ↦
                rw (r, alive, stop, qmp, e, c)
                  (raised-StopEnd w first pid (rw alive at r) still lines e f
                    (converse-IsReplyError lines f c) c)
          ]
        ]
      ]
