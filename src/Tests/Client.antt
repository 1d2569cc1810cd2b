-- ===== src/Tests/Client.antt =====
-- A client that takes no notice of SIGTERM.
use telar.Prelude.Result.{ok}
use telar.Prelude.{Bool, if◌then◌else◌, ◌≡◌, refl, true, false, none, some, List, [], ◌∷◌}
use telar.Prelude.Int.{negsuc}
use telar.Headless.Client.{Signal, World, System, terminate, sigterm, sigkill}

abbrev is_killed : List Signal → Bool
is_killed [] = false
is_killed (sigterm ∷ signals) = is_killed signals
is_killed (sigkill ∷ signals) = true

abbrev stubborn : System
stubborn = record {
  poll = λ w. none;
  wait = λ timeout w. if is_killed w.signals then some (negsuc 8) else none;
  is_broken = λ w. false;
  first_line = λ timeout w. some "ready\n";
}

abbrev launched : World
launched = record { sent = []; stdin_open = true; log_open = true; signals = [] }

killed_in_the_end : terminate stubborn 5 launched ≡ (
  record { sent = []; stdin_open = true; log_open = false; signals = sigkill ∷ sigterm ∷ [] },
  ok tt,
)
unfolding terminate
killed_in_the_end = refl
