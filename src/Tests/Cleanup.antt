-- ===== src/Tests/Cleanup.antt =====
-- A session of two processes, one of which dies slowly.
use telar.Cleanup.Safe.{cleanup_sessions-IsClean, IsClean}
use telar.Cleanup.Descendants.{descendants}
use telar.Cleanup.Owned.{ComesFrom, descendants_iff}
use telar.Cleanup.Stop.{stop_runtime}
use telar.Cleanup.Stopped.{IsStopped, stop_runtime-IsStopped}
use telar.Prelude.{List, true, ◌↔◌, false, ltb, if◌then◌else◌, ◌≡◌, refl, none, some, [], ◌∷◌}
use telar.Prelude.Int.{ℤ, eq_ℤ, pos}
use telar.Cleanup.{pids_of, is_member, World, System, cleanup_sessions}

abbrev runner : ℤ × ℤ
runner = (pos 10, pos 9)

abbrev busy : System
busy = record {
  process_table =
      λ w. if ltb w.now 120 then runner ∷ (pos 20, pos 1) ∷ (pos 21, pos 20) ∷ [] else runner ∷ [];
  getsid = λ w pid. if eq_ℤ pid (pos 10) then some (pos 1) else some (pos 2);
  overslept = λ w. 1;
  runtimes = λ w. if ltb w.now 70 then pos 20 ∷ [] else [];
  stop_took = λ w. 30;
  stop_answer = λ w. some (pos 0, "stopped");
  has_socket = λ w. false;
  own_session = pos 1;
  parent_session = pos 1;
  own_pid = pos 10;
  parent_pid = pos 9;
}

abbrev fresh : World
fresh = record { now = 0; killed = [] }

cleaned :
    cleanup_sessions busy (pos 2 ∷ []) fresh
    ≡ (record { now = 153; killed = pos 21 ∷ pos 20 ∷ [] }, none)
unfolding cleanup_sessions
cleaned = refl

cleanup_sessions-IsClean_example :
    IsClean busy (pos 2 ∷ []) fresh (cleanup_sessions busy (pos 2 ∷ []) fresh)
cleanup_sessions-IsClean_example = cleanup_sessions-IsClean busy (pos 2 ∷ []) fresh

-- A runtime, its child, and the runner's own tree.
abbrev table : List (ℤ × ℤ)
table = (pos 22, pos 21) ∷ (pos 21, pos 20) ∷ (pos 20, pos 1) ∷ (pos 10, pos 9) ∷ []

descendants_test : descendants table (pos 20 ∷ []) ≡ pos 22 ∷ pos 21 ∷ pos 20 ∷ []
unfolding descendants
descendants_test = refl

descendants_iff_example :
    (is_member (descendants table (pos 20 ∷ [])) (pos 22) ≡ true)
    ↔ ((is_member (pids_of table) (pos 22) ≡ true) × ComesFrom table (pos 20 ∷ []) (pos 22))
descendants_iff_example = descendants_iff table (pos 20 ∷ []) (pos 22)

-- The runtime is gone when the wait begins to look, and its child is killed.
stop_test : (stop_runtime busy fresh).0.killed ≡ pos 21 ∷ pos 20 ∷ []
unfolding stop_runtime
stop_test = refl

stop_runtime-IsStopped_example : IsStopped busy fresh (stop_runtime busy fresh)
stop_runtime-IsStopped_example = stop_runtime-IsStopped busy fresh
