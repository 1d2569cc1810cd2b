-- ===== src/Tests/Finish.antt =====
-- A run of two variants that counts, and its exit status.
use telar.Placement.Finish.Status.{command_run-zero, IsSound}
use telar.Placement.Session.{Report}
use telar.Placement.Finish.{command_run, Saved, Place, Digests}
use telar.Placement.{Variant}
use telar.Placement.Session.{completed}
use telar.Placement.Finish.{exited, Exit}
use telar.Placement.Validate.{Args}
use telar.Tests.Placement.{arguments}
use telar.Prelude.{
  ==_iff, ◌==◌, length, ◌≡◌, ℕ, refl, none, some, true, false, String, List, [], ◌∷◌, Bool, Option,
}
use telar.Prelude.Int.{pos}
use telar.Prelude.Result.{get_ok, ok}
use telar.Tests.Sample.{whole, ascii}
use telar.Tests.Output.{stdout}

abbrev steady : ℕ → ℕ → Variant → Report whole
steady round position variant = record {
  ending = completed (pos 0);
  stdout = stdout;
  last_error_line = none;
}

abbrev constant : Digests whole
constant = record {
  of_metadata = λ m. "m";
  of_layout = λ l. "l";
  of_names = λ names. "n";
  of_shape = λ case. "s";
}

abbrev place : Place whole constant
place = record { output_is_there = false; is_executable = λ b. true; build_succeeds = true }

abbrev twice : Args whole
twice = record arguments {
  rounds = pos 2;
  variant = "near=baseline" ∷ "again=baseline" ∷ [];
  reference = none;
}

abbrev ended : Option (Saved whole constant) × Exit whole constant
ended = get_ok (none, exited 9) (command_run whole constant ascii place steady twice)

run_ok : command_run whole constant ascii place steady twice ≡ ok (ended.0, exited 0)
unfolding command_run telar.Placement.Power.power_of_two telar.Prelude.Int.◌*ℤ◌
    telar.Placement.ParseVariant.parse_variant telar.Text.partition telar.Text.isalnum
    telar.Placement.Order.ordered telar.Placement.Run.Output.parse_run telar.Json.py_eq
    telar.Json.py_mul telar.Json.py_sum telar.Json.as_number telar.Placement.Paired.paired
run_ok = refl

command_run-zero_example :
    (saved : Saved whole constant) × (ended.0 ≡ some saved)
    × IsSound whole constant ascii twice saved
command_run-zero_example = command_run-zero whole constant ascii place steady twice ended.0 run_ok
