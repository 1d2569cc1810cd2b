-- ===== src/Cleanup/Stop.antt =====
-- `stop_runtime` of tools/perf_e2e.py: a runtime is asked to stop, and what is left of it is killed.
use telar.Cleanup.{
  World, System, CleanupError, Ending, out_of_fuel, is_member, is_empty_list, owned_sessions,
  session_members, cleanup_sessions,
}
use telar.Cleanup.Descendants.{descendants}
use telar.Prelude.{
  ℕ, zero, suc, ◌+◌, ◌-◌, String, Bool, true, false, not, ◌&&◌, Option, none, some, List, select,
  ltb, if◌then◌else◌,
}
use telar.Prelude.Int.{ℤ, negsuc}

-- `elapsed_ms` is in milliseconds.
pub record Stopped : Type 0 where
  pub elapsed_ms : ℕ
  pub exited : Bool
  pub returncode : ℤ
  pub reply : String
  pub pids : List ℤ
  pub children_exited : Bool
  pub socket_removed : Bool

pub data StopEnd : Type 0 where
  stopped : Stopped → StopEnd
  raised : CleanupError → StopEnd

module _ (sys : System) where
  open sys use {process_table, runtimes, stop_took, stop_answer, has_socket, overslept}

  abbrev pub slept : World → World
  slept w = record w { now = w.now + 20 + overslept w }

  -- Whether the fuel was enough, and the world behind the wait.
  unfoldable pub await_exit : ℕ → ℕ → World → World × Bool
  await_exit zero deadline w = (w, not (ltb w.now deadline && not (is_empty_list (runtimes w))))
  await_exit (suc fuel) deadline w =
      let later = await_exit fuel deadline (slept w) in
      if ltb w.now deadline && not (is_empty_list (runtimes w)) then later else (w, true)

  abbrev pub answered : Option (ℤ × String) → ℤ × String
  answered none = (negsuc 0, "stop command timed out")
  answered (some answer) = answer

  -- `not [pid for pid in survivors if pid not in pids]`
  abbrev pub only_roots : List ℤ → List ℤ → Bool
  only_roots survivors pids = is_empty_list (select (λ pid. not (is_member pids pid)) survivors)

  abbrev pub describe : ℕ → List ℤ → ℤ × String → List ℤ → World → Stopped
  describe started pids answer survivors w = record {
    elapsed_ms = w.now - started;
    exited = is_empty_list (runtimes w);
    returncode = answer.0;
    reply = answer.1;
    pids = pids;
    children_exited = only_roots survivors pids;
    socket_removed = not (has_socket w);
  }

  abbrev pub close_stop : Stopped → Ending → World × StopEnd
  close_stop result (w, none) = (w, stopped result)
  close_stop result (w, some e) = (w, raised e)

  abbrev pub then_clean : ℕ → List ℤ → List ℤ → ℤ × String → World × Bool → World × StopEnd
  then_clean started pids sessions answer (w, false) = (w, raised out_of_fuel)
  then_clean started pids sessions answer (w, true) =
      close_stop (describe started pids answer (session_members sys w sessions) w)
        (cleanup_sessions sys sessions w)

  abbrev pub asked : World → World
  asked w = record w { now = w.now + stop_took w }

  abbrev pub stop_sessions : List ℤ → List ℤ × Option CleanupError → World → World × StopEnd
  stop_sessions pids (sessions, some e) w = (w, raised e)
  stop_sessions pids (sessions, none) w =
      then_clean w.now pids sessions (answered (stop_answer w))
        (await_exit 250 (w.now + 5000) (asked w))

  -- Each turn of the wait takes a fiftieth of a second at least, so the five seconds are over after
  -- 250 of them.
  unfoldable pub stop_runtime : World → World × StopEnd
  unfolding descendants owned_sessions await_exit cleanup_sessions
  stop_runtime w =
      stop_sessions (runtimes w) (owned_sessions sys w (descendants (process_table w) (runtimes w)))
        w
