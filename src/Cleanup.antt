-- ===== src/Cleanup.antt =====
-- tools/perf_e2e.py: what is left of a measured runtime is killed, session by session.
pub mod Safe
pub mod Descendants
pub mod Rows
pub mod Owned
pub mod Stop
pub mod Stopped
use telar.Prelude.{
  String, ℕ, zero, suc, ◌+◌, Bool, true, false, not, ◌&&◌, ◌||◌, Option, none, some, List, [], ◌∷◌,
  any, select, map, ltb, if◌then◌else◌,
}
use telar.Prelude.Int.{eq_ℤ, ℤ}

-- `time.perf_counter()` in milliseconds, and the processes that were sent SIGKILL, the last first.
pub record World : Type 0 where
  pub now : ℕ
  pub killed : List ℤ

-- What the system says, at each state of the world, and the runner's own processes.
pub record System : Type 0 where
  -- The pids of `ps`, each with its parent's.
  pub process_table : World → List (ℤ × ℤ)
  -- `os.getsid(pid)`; `none` is `ProcessLookupError`.
  pub getsid : World → ℤ → Option ℤ
  -- What `time.sleep` takes beyond the time asked for.
  pub overslept : World → ℕ
  -- `runtime_pids` of the runtime's socket.
  pub runtimes : World → List ℤ
  -- What the stop command takes, and its return code and output; `none` is `TimeoutExpired`.
  pub stop_took : World → ℕ
  pub stop_answer : World → Option (ℤ × String)
  pub has_socket : World → Bool
  pub own_session : ℤ
  pub parent_session : ℤ
  pub own_pid : ℤ
  pub parent_pid : ℤ

pub data CleanupError : Type 0 where
  shares_session refuses_session refuses_process survivors out_of_fuel : CleanupError

abbrev pub Ending : Type 0
Ending = World × Option CleanupError

abbrev pub is_member : List ℤ → ℤ → Bool
is_member ids a = any (eq_ℤ a) ids

abbrev pub is_empty_list : List ℤ → Bool
is_empty_list [] = true
is_empty_list (a ∷ ids) = false

abbrev pub pids_of : List (ℤ × ℤ) → List ℤ
pids_of table = map (λ row. row.0) table

module _ (sys : System) where
  open sys use {process_table, getsid, overslept, own_session, parent_session, own_pid, parent_pid}

  -- `sessions & {os.getsid(0), os.getsid(os.getppid())}`
  abbrev pub shares : List ℤ → Bool
  shares sessions = is_member sessions own_session || is_member sessions parent_session

  abbrev add_session : Option ℤ → List ℤ → List ℤ
  add_session none sessions = sessions
  add_session (some s) sessions = if is_member sessions s then sessions else s ∷ sessions

  collect : World → List ℤ → List ℤ
  collect w [] = []
  collect w (pid ∷ owned) = add_session (getsid w pid) (collect w owned)

  -- The sessions of the processes of a runtime: none of them may be the runner's.
  unfoldable pub owned_sessions : World → List ℤ → List ℤ × Option CleanupError
  unfolding collect
  owned_sessions w owned =
      let sessions = collect w owned in
      (sessions, if shares sessions then some shares_session else none)

  unfoldable pub in_sessions : World → List ℤ → ℤ → Bool
  in_sessions w sessions pid = elim (getsid w pid) [ none ↦ false | some s ↦ is_member sessions s ]

  unfoldable pub session_members : World → List ℤ → List ℤ
  unfolding in_sessions
  session_members w sessions = select (in_sessions w sessions) (pids_of (process_table w))

  -- `os.kill(pid, signal.SIGKILL)`
  abbrev pub kill : ℤ → World → World
  kill pid w = record w { killed = pid ∷ w.killed }

  abbrev pub is_runner : ℤ → Bool
  is_runner pid = eq_ℤ pid own_pid || eq_ℤ pid parent_pid

  -- The session of each process is asked for again before it is killed.
  unfoldable pub kill_members : List ℤ → List ℤ → World → Ending
  unfolding in_sessions
  kill_members sessions [] w = (w, none)
  kill_members sessions (pid ∷ members) w =
      if is_runner pid
      then (w, some refuses_process)
      else kill_members sessions members (if in_sessions w sessions pid then kill pid w else w)

  abbrev pub pause : World → World
  pause w = record w { now = w.now + 50 + overslept w }

  unfoldable pub await_end : ℕ → List ℤ → ℕ → World → Ending
  unfolding session_members
  await_end zero sessions deadline w = (w, some out_of_fuel)
  await_end (suc fuel) sessions deadline w =
      let later = await_end fuel sessions deadline (pause w) in
      if not (is_empty_list (session_members w sessions)) && ltb w.now deadline
      then later
      else (w, if is_empty_list (session_members w sessions) then none else some survivors)

  abbrev pub then_await : List ℤ → Ending → Ending
  then_await sessions (w, some e) = (w, some e)
  then_await sessions (w, none) = await_end 41 sessions (w.now + 2000) w

  -- Each turn of the wait takes a twentieth of a second at least, so the two seconds are over after
  -- forty of them.
  unfoldable pub cleanup_sessions : List ℤ → World → Ending
  unfolding kill_members await_end
  cleanup_sessions sessions w =
      if shares sessions
      then (w, some refuses_session)
      else if is_empty_list sessions
      then (w, none)
      else then_await sessions (kill_members sessions (session_members w sessions) w)
