-- ===== src/Vm/System.antt =====
-- What tools/vm/vm.py does to the host: the state that it reads and changes, and the answers of
-- the operating system, which are a parameter.
use telar.Prelude.{
  ap, ◌≡◌, ◌==◌, str_eq, if◌then◌else◌, ℕ, ◌+◌, ◌*◌, String, Bool, true, false, Option, none, some,
  List, [], ◌∷◌,
}
use telar.Prelude.Result.{Result, ok, err}
use telar.Prelude.Int.{ℤ}
use telar.Placement.Paired.{Dict, lookup}

-- What a call raises. `out_of_fuel` stands for a loop of the model that was not given enough
-- steps, and `blocked` for a read that never returns.
pub data Failure : Type 0 where
  runtime_error : String → Failure
  called_process_error : ℕ → Failure
  os_error value_error type_error key_error blocked out_of_fuel : Failure

pub data Effect : Type 0 where
  ran : List String → Effect
  piped : List String → List String → Effect
  spawned : List String → Effect
  signalled : ℤ → ℕ → Effect
  slept : ℕ → Effect
  asked : String → List String → Effect
  printed : String → Effect
  serving : Effect
  shut_seed : Effect

-- The files of the state directory, `time.monotonic()` in milliseconds, and what has been done,
-- the last first.
pub record World : Type 0 where
  pub files : Dict String
  pub now : ℕ
  pub effects : List Effect

-- What a read of QEMU's monitor gives: an object with its `"return"` and its `"error"`'s `"desc"`; a
-- line that `json.loads` refuses, the end of the stream too; a value that cannot be asked for a
-- `"return"`; an `"error"` without a `"desc"`; a connection that breaks; or nothing ever, as the
-- socket has no timeout, nor anything but events.
pub data Reply : Type 0 where
  object : Option String → Option String → Reply
  unreadable wrong_type no_desc broken silent : Reply

-- What a finished command leaves: its return code, the state directory and the time it took.
pub record Outcome : Type 0 where
  pub code : ℕ
  pub files : Dict String
  pub took : ℕ

pub record System : Type 0 where
  -- `os.kill(pid, signal)` does not raise.
  pub delivered : World → ℤ → ℕ → Bool
  pub completed : World → List String → Outcome
  -- The process of a `Popen`.
  pub pid_of : World → List String → ℕ
  -- `process.poll() is not None`
  pub exited : World → Bool
  -- What `time.sleep` takes beyond the time asked for.
  pub overslept : World → ℕ
  -- The lines of the monitor's socket behind its greeting; `none` where it does not connect.
  pub monitor : World → Option (List Reply)

abbrev pub Action : Type 0 → Type 0
Action A = World → World × Result Failure A

abbrev pub continue :
    {A B : Type 0} → World × Result Failure A → (A → Action B) → World × Result Failure B
continue (w, ok a) rest = rest a w
continue (w, err e) rest = (w, err e)

infixl 5 ◌>>=◌
abbrev pub ◌>>=◌ : {A B : Type 0} → Action A → (A → Action B) → Action B
◌>>=◌ first rest w = continue (first w) rest

pub bind-ok :
    {A B : Type 0} (first : Action A) (rest : A → Action B) {w w' : World} {a : A}
    → first w ≡ (w', ok a)
    → (first >>= rest) w ≡ rest a w'
bind-ok first rest h = ap (λ p. continue p rest) h

pub bind-err :
    {A B : Type 0} (first : Action A) (rest : A → Action B) {w w' : World} {e : Failure}
    → first w ≡ (w', err e)
    → (first >>= rest) w ≡ (w', err e)
bind-err first rest h = ap (λ p. continue p rest) h

abbrev pub return : {A : Type 0} → A → Action A
return a w = (w, ok a)

abbrev pub throw : {A : Type 0} → Failure → Action A
throw e w = (w, err e)

abbrev pub record_effect : Effect → World → World
record_effect e w = record w { effects = e ∷ w.effects }

-- `print(text)`
abbrev pub print : String → Action (Unit {0})
print text w = (record_effect (printed text) w, ok tt)

abbrev pub put : String → String → Dict String → Dict String
put k v [] = (k, v) ∷ []
put k v ((j, u) ∷ d) = if str_eq j k then (k, v) ∷ d else (j, u) ∷ put k v d

abbrev pub remove : String → Dict String → Dict String
remove k [] = []
remove k ((j, u) ∷ d) = let rest = remove k d in if str_eq j k then rest else (j, u) ∷ rest

unfoldable pub exists : String → World → Bool
exists name w = elim (lookup name w.files) [ none ↦ false | some text ↦ true ]

-- `path.read_text()`
unfoldable pub read_text : String → Action String
read_text name w = elim (lookup name w.files) [
  | none ↦ (w, err os_error)
  | some text ↦ (w, ok text)
]

-- `path.write_text(text)`
abbrev pub write_text : String → String → Action (Unit {0})
write_text name text w = (record w { files = put name text w.files }, ok tt)

module _ (sys : System) where
  open sys use {delivered, completed, pid_of, overslept}

  -- `os.kill(pid, signal)`
  unfoldable pub kill : ℤ → ℕ → Action (Unit {0})
  kill pid signal w = (
    record_effect (signalled pid signal) w,
    if delivered w pid signal then ok tt else err os_error,
  )

  -- `time.sleep(seconds)`
  abbrev pub sleep : ℕ → Action (Unit {0})
  sleep seconds w = (
    record w { now = w.now + seconds * 1000 + overslept w; effects = slept seconds ∷ w.effects },
    ok tt,
  )

  -- `subprocess.run(words)`: its return code.
  abbrev pub after_run : List String → World → World
  after_run words w =
      let left = completed w words in
      record { files = left.files; now = w.now + left.took; effects = ran words ∷ w.effects }

  abbrev pub run : List String → Action ℕ
  run words w = (after_run words w, ok (completed w words).code)

  -- `subprocess.run(words, check=True)`
  unfoldable pub check_run : List String → Action (Unit {0})
  check_run words =
      run words >>= λ code. if code == 0 then return tt else throw (called_process_error code)

  -- `subprocess.Popen(words, ...)`: its pid.
  abbrev pub spawn : List String → Action ℕ
  spawn words w = (record_effect (spawned words) w, ok (pid_of w words))

  -- `subprocess.Popen(words, stdin=PIPE)` that is given an archive of the members: its return code.
  abbrev pub pipe : List String → List String → Action ℕ
  pipe words members w =
      let left = completed w words in
      (
        record {
          files = left.files;
          now = w.now + left.took;
          effects = piped words members ∷ w.effects;
        },
        ok left.code,
      )
