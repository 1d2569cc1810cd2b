-- ===== src/Tests/EchoPath.antt =====
-- A probe that takes the frames byte by byte and answers in two parts, and a key that it sees.
use telar.EchoPath.Oracle.{took, Probe, Oracle, feed}
use telar.EchoPath.Framed.{FeedEnd, feed-FeedEnd}
use telar.EchoPath.Exchange.{Turn, silent, arrived, Host, World, Sample, exchange, measure_control}
use telar.EchoPath.Visible.{exchange-IsExchanged, ExchangeEnd, Ends}
use telar.EchoPath.Samples.{AreInOrder, measure_control-AreInOrder}
use telar.EchoPath.Plan.{Spec, Args, check_arguments, ordered_specs, specs_of, plan}
use telar.EchoPath.Rounds.{AreRounds, IsMeasurable, plan-AreRounds}
use telar.Tests.Sample.{whole}
use telar.Prelude.{
  suc, ◌/◌, ℕ, zero, suc, ◌%◌, ◌==◌, ◌≡◌, refl, String, Bool, true, false, some, List, [], ◌∷◌, map,
  length, if◌then◌else◌,
}
use telar.Prelude.Int.{ℤ, pos, pos_part}
use telar.Prelude.Result.{ok, get_ok}

-- Calls 0 to 4 write a frame of one byte, calls 5 and 6 read the answer, and so on.
abbrev probe : Probe
probe = record {
  write = λ call bytes. took 1;
  is_ready = λ call. true;
  output = λ call.
      if call % 7 == 5
      then (if call / 7 % 2 == 0 then 1 else 0) ∷ 0 ∷ 0 ∷ []
      else 0 ∷ 0 ∷ 0 ∷ 0 ∷ 0 ∷ [];
}

abbrev fresh : Oracle
fresh = record { count = 0; synchronized = 0; wrote = []; calls = 0 }

feed-FeedEnd_example : FeedEnd probe fresh (126 ∷ []) (feed probe (126 ∷ []) fresh)
feed-FeedEnd_example = feed-FeedEnd probe (126 ∷ []) fresh

feed_test :
    feed probe (126 ∷ []) fresh
    ≡ (record { count = 1; synchronized = 0; wrote = 1 ∷ 0 ∷ 0 ∷ 0 ∷ 126 ∷ []; calls = 7 }, ok tt)
unfolding feed
feed_test = refl

-- Two seconds pass; then each key is answered, and so is its erasure.
abbrev answer : ℕ → Turn
answer zero = silent 2000000000
answer (suc step) =
    if step % 3 == 0
    then arrived 1 (126 ∷ []) 1
    else if step % 3 == 1
    then arrived 1 (8 ∷ []) 1
    else silent 9

abbrev host : Host
host = record { probe = probe; typing = λ now. some 10; turn = answer }

abbrev settled : World
settled = record { now = 100; step = 0; typed = []; oracle = fresh }

abbrev key_pressed : World
key_pressed = record { now = 100; step = 1; typed = []; oracle = fresh }

abbrev echoed : Sample
echoed = record { wire_bytes = 1; reads = 1; started_ns = 100; sent_ns = 110; arrived_ns = 112 }

exchange_ok : (exchange host (126 ∷ []) 1 key_pressed).1 ≡ ok echoed
unfolding exchange
exchange_ok = refl

exchange-IsExchanged_example :
    ExchangeEnd host (126 ∷ []) 1 key_pressed (exchange host (126 ∷ []) 1 key_pressed)
exchange-IsExchanged_example = exchange-IsExchanged host (126 ∷ []) 1 key_pressed

measure_control-AreInOrder_example :
    Ends (measure_control host 5 3 settled).1
    × ((samples : List Sample)
        → (measure_control host 5 3 settled).1 ≡ ok samples
        → AreInOrder host 5 3 settled (measure_control host 5 3 settled).0 samples)
measure_control-AreInOrder_example = measure_control-AreInOrder host 5 3 settled

samples_test : length (get_ok [] (measure_control host 5 3 settled).1) ≡ 3
unfolding measure_control exchange feed
samples_test = refl

abbrev finite : ℤ → Bool
finite gap = true

abbrev args : Args whole finite
args = record {
  baseline = some "old";
  candidate = some "new";
  samples = pos 200;
  repetitions = pos 2;
  gap = pos 1;
  trace = false;
  floods = 0;
  controls = "direct" ∷ "one" ∷ [];
}

abbrev itself : String → String
itself path = path

checked : check_arguments whole finite args ≡ ok tt
unfolding check_arguments
checked = refl

plan-AreRounds_example :
    IsMeasurable whole finite itself args
    × ((runs : List (ℕ × Spec)) × (plan whole finite itself args ≡ ok runs)
        × AreRounds (specs_of whole finite itself args) 0 (pos_part args.repetitions) runs)
plan-AreRounds_example = plan-AreRounds whole finite itself args checked

-- In the second repetition the binaries are reversed, and everything has moved by one group.
order_test :
    map (λ s. s.name) (get_ok [] (ordered_specs (specs_of whole finite itself args) 1))
    ≡ "one" ∷ "candidate" ∷ "baseline" ∷ "direct" ∷ []
unfolding ordered_specs specs_of
order_test = refl
