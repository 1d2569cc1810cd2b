-- ===== src/EchoPath/Framed.antt =====
-- What the oracle's process is sent, and what its answer leaves.
use mathlib.Core.List.{append_assoc, append-nil}
use telar.EchoPath.{
  PathError, eof_error, timeout_error, runtime_error, struct_error, os_error, out_of_fuel,
}
use telar.EchoPath.Oracle.{
  Written, took, nothing, refused, Probe, Oracle, Outcome, pack_bytes, unpack_bytes, frame, called,
  write_pending, read_reply, note_reply, then_read, feed,
}
use telar.Prelude.{
  ◌<◌, ltb→lt, ◌⊎◌, length-drop, subst, ℕ, zero, suc, ◌+◌, ◌-◌, ◌^◌, ◌≤◌, ◌≡◌, ◌≢◌, refl, sym, ap,
  ◌∙◌, none, some, List, [], ◌∷◌, ◌++◌, length, take, drop, ltb, leb, Bool-cases, inl, inr,
  take-append-drop, length-take, length-append, arith, true,
}
use telar.Prelude.Result.{err-injective, ok_or_err, ok-injective, ok, err}

module _ (probe : Probe) where
  open probe use {write, is_ready, output}

  -- The pending bytes are all written; or the first of them, and then the write fails.
  data WriteEnd (o : Oracle) (pending : List ℕ) (end : Outcome (Unit {0})) : Type 0 where
    all_written :
        end.1 ≡ ok tt
        → end.0.wrote ≡ o.wrote ++ pending
        → end.0.count ≡ o.count
        → end.0.synchronized ≡ o.synchronized
        → WriteEnd o pending end
    broken_off :
        (sent rest : List ℕ) (e : PathError)
        → end.1 ≡ err e
        → e ≢ out_of_fuel
        → pending ≡ sent ++ rest
        → end.0.wrote ≡ o.wrote ++ sent
        → end.0.count ≡ o.count
        → end.0.synchronized ≡ o.synchronized
        → WriteEnd o pending end

  later_write :
      (o middle : Oracle) (first pending : List ℕ) (end : Outcome (Unit {0}))
      → middle.wrote ≡ o.wrote ++ first
      → middle.count ≡ o.count
      → middle.synchronized ≡ o.synchronized
      → WriteEnd middle pending end
      → WriteEnd o (first ++ pending) end
  later_write o middle first pending end w c s (all_written e wrote count sync) =
      all_written e (wrote ∙ ap (λ l. l ++ pending) w ∙ append_assoc o.wrote first pending)
        (count ∙ c) (sync ∙ s)
  later_write o middle first pending end w c s
        (broken_off sent rest f e fuel split wrote count sync) =
      broken_off (first ++ sent) rest f e fuel
        (ap (λ l. first ++ l) split ∙ sym (append_assoc first sent rest))
        (wrote ∙ ap (λ l. l ++ sent) w ∙ append_assoc o.wrote first sent) (count ∙ c) (sync ∙ s)

  no_write :
      (o : Oracle) (pending : List ℕ) (e : PathError)
      → e ≢ out_of_fuel
      → WriteEnd o pending (called probe o, err e)
  no_write o pending e fuel =
      broken_off [] pending e refl fuel refl (sym (append-nil o.wrote)) refl refl

  write_pending-WriteEnd :
      (fuel : ℕ) (pending : List ℕ) (o : Oracle)
      → length pending ≤ fuel
      → WriteEnd o pending (write_pending probe fuel pending o)
  unfolding write_pending
  write_pending-WriteEnd fuel [] o enough = all_written refl (sym (append-nil o.wrote)) refl refl
  write_pending-WriteEnd zero (b ∷ pending) o enough = absurd (omega arith)
  write_pending-WriteEnd (suc fuel) (b ∷ pending) o enough =
      go (write_pending-WriteEnd fuel) (write o.calls (b ∷ pending)) refl
    where
      go :
          ((later : List ℕ) (w : Oracle)
            → length later ≤ fuel
            → WriteEnd w later (write_pending probe fuel later w))
          → (answer : Written) → write o.calls (b ∷ pending) ≡ answer
          → WriteEnd o (b ∷ pending) (write_pending probe (suc fuel) (b ∷ pending) o)
      go again refused e = rw (e, write_pending) (no_write o (b ∷ pending) os_error (λ h. cc))
      go again nothing e = rw (e, write_pending) (no_write o (b ∷ pending) eof_error (λ h. cc))
      go again (took zero) e = rw (e, write_pending) (no_write o (b ∷ pending) eof_error (λ h. cc))
      go again (took (suc less)) e =
          rw (e, write_pending)
            (subst
              (λ l. WriteEnd o (b ∷ l) (
                write_pending probe fuel (drop less pending)
                  (record o { wrote = o.wrote ++ b ∷ take less pending; calls = suc o.calls })))
              (take-append-drop less pending)
              (later_write o _ (b ∷ take less pending) (drop less pending) _ refl refl refl
                (again (drop less pending) _ (omega (arith, enough, length-drop less pending)))))

  -- What the process puts out from a call on, in parts as large as what is missing of eight bytes, is
  -- read behind what has been read, until there are eight.
  pub data ReadsTo : ℕ → List ℕ → List ℕ → Type 0 where
    complete : (call : ℕ) (reply : List ℕ) → length reply ≡ 8 → ReadsTo call reply reply
    reads :
        (call : ℕ) (reply whole : List ℕ)
        → length reply < 8
        → is_ready call ≡ true
        → ReadsTo (suc call) (reply ++ take (8 - length reply) (output call)) whole
        → ReadsTo call reply whole

  -- Eight bytes are read, or the read fails; nothing is written.
  record ReplyEnd (o : Oracle) (before : List ℕ) (end : Outcome (List ℕ)) : Type 0 where
    wrote : end.0.wrote ≡ o.wrote
    count : end.0.count ≡ o.count
    synchronized : end.0.synchronized ≡ o.synchronized
    bytes : (reply : List ℕ) → end.1 ≡ ok reply → ReadsTo o.calls before reply
    fuel : end.1 ≢ err out_of_fuel

  read_end :
      (o : Oracle) (reply : List ℕ)
      → length reply ≤ 8
      → leb 8 (length reply) ≡ true
      → ReplyEnd o reply (o, ok reply)
  read_end o reply short full = record {
    wrote = refl;
    count = refl;
    synchronized = refl;
    bytes = λ r h.
        subst (ReadsTo o.calls reply) (ok-injective h) (complete o.calls reply (ground arith));
    fuel = ok_or_err;
  }

  no_reply :
      (o : Oracle) (before : List ℕ) (e : PathError)
      → e ≢ out_of_fuel
      → ReplyEnd o before (called probe o, err e)
  no_reply o before e raised = record {
    wrote = refl;
    count = refl;
    synchronized = refl;
    bytes = λ r h. absurd (ok_or_err (sym h));
    fuel = λ h. raised (err-injective h);
  }

  read_reply-ReplyEnd :
      (fuel : ℕ) (reply : List ℕ) (o : Oracle)
      → length reply ≤ 8
      → 8 ≤ length reply + fuel
      → ReplyEnd o reply (read_reply probe fuel reply o)
  unfolding read_reply
  read_reply-ReplyEnd zero reply o short enough =
      let full : leb 8 (length reply) ≡ true = ground arith in
      rw (full, read_reply) (read_end o reply short full)
  read_reply-ReplyEnd (suc fuel) reply o short enough = elim (Bool-cases (leb 8 (length reply))) [
    | inl full ↦ rw (full, read_reply) (read_end o reply short full)
    | inr missing ↦ elim (Bool-cases (is_ready o.calls)) [
      | inr silent ↦ rw (missing, silent, read_reply) (no_reply o reply timeout_error (λ h. cc))
      | inl heard ↦
          rw (missing, heard, read_reply)
            (go (read_reply-ReplyEnd fuel) heard (ground arith)
              (take (8 - length reply) (output o.calls)) refl
              (omega (arith, length-take (8 - length reply) (output o.calls))))
    ]
  ]
    where
      go :
          ((more : List ℕ) (w : Oracle)
            → length more ≤ 8
            → 8 ≤ length more + fuel
            → ReplyEnd w more (read_reply probe fuel more w))
          → is_ready o.calls ≡ true
          → length reply < 8
          → (part : List ℕ) → take (8 - length reply) (output o.calls) ≡ part
          → length reply + length part ≤ 8
          → ReplyEnd o reply (
              let later = read_reply probe fuel (reply ++ part) (called probe o) in
              elim part [ [] ↦ (called probe o, err runtime_error) | b ∷ bytes ↦ later ])
      go again heard short [] is_part fits = no_reply o reply runtime_error (λ h. cc)
      go again heard short (b ∷ bytes) is_part fits =
          let r =
            again (reply ++ b ∷ bytes) (called probe o)
              (omega (arith, fits, length-append reply (b ∷ bytes)))
              (omega (arith, enough, length-append reply (b ∷ bytes))) in
          record {
            wrote = r.wrote;
            count = r.count;
            synchronized = r.synchronized;
            bytes = λ whole h. reads o.calls reply whole short heard (
                subst (λ p. ReadsTo (suc o.calls) (reply ++ p) whole) (sym is_part)
                  (r.bytes whole h));
            fuel = r.fuel;
          }

-- The first four bytes of a frame say how many bytes follow.
abbrev pub IsFrame : List ℕ → List ℕ → Type 0
IsFrame bytes whole = (unpack_bytes (take 4 whole) ≡ length bytes) × (drop 4 whole ≡ bytes)

frame-cases :
    (bytes : List ℕ)
    → ((2 ^ 32 ≤ length bytes) × (frame bytes ≡ none))
      ⊎ ((whole : List ℕ) × (frame bytes ≡ some whole) × IsFrame bytes whole)
unfolding frame pack_bytes unpack_bytes
frame-cases bytes = elim (Bool-cases (ltb (length bytes) (2 ^ 32))) [
  | inr long ↦ inl (ground arith, rw long refl)
  | inl fits ↦
      inr
        (pack_bytes 4 (length bytes) ++ bytes, rw fits refl, (omega (arith, ltb→lt _ _ fits), refl))
]

module _ (probe : Probe) where
  -- How a feed of `bytes` ends: the process was sent one frame with them and the eight bytes
  -- that are read of what it puts out behind the last write are the oracle's two numbers now; the bytes are too many for a frame, and nothing
  -- was sent; or a call failed when the process had been sent a part of the frame or all of it, and
  -- the oracle's numbers are the old ones.
  pub data FeedEnd (o : Oracle) (bytes : List ℕ) (end : Outcome (Unit {0})) : Type 0 where
    answered :
        (whole reply : List ℕ)
        → IsFrame bytes whole
        → ReadsTo probe (write_pending probe (length whole) whole o).0.calls [] reply
        → end.1 ≡ ok tt
        → end.0.wrote ≡ o.wrote ++ whole
        → end.0.count ≡ unpack_bytes (take 4 reply)
        → end.0.synchronized ≡ unpack_bytes (drop 4 reply)
        → FeedEnd o bytes end
    too_long : 2 ^ 32 ≤ length bytes → end ≡ (o, err struct_error) → FeedEnd o bytes end
    failed :
        (sent rest : List ℕ) (e : PathError)
        → IsFrame bytes (sent ++ rest)
        → e ≢ out_of_fuel
        → end.1 ≡ err e
        → end.0.wrote ≡ o.wrote ++ sent
        → end.0.count ≡ o.count
        → end.0.synchronized ≡ o.synchronized
        → FeedEnd o bytes end

  note_reply-FeedEnd :
      (o sent : Oracle) (bytes whole : List ℕ) (end : Outcome (List ℕ))
      → IsFrame bytes whole
      → sent.wrote ≡ o.wrote ++ whole
      → sent.count ≡ o.count
      → sent.synchronized ≡ o.synchronized
      → sent.calls ≡ (write_pending probe (length whole) whole o).0.calls
      → ReplyEnd probe sent [] end
      → FeedEnd o bytes (note_reply probe end)
  note_reply-FeedEnd o sent bytes whole (w, ok reply) framed wrote count sync at r =
      answered whole reply framed (subst (λ c. ReadsTo probe c [] reply) at (r.bytes reply refl))
        refl (r.wrote ∙ wrote) refl refl
  note_reply-FeedEnd o sent bytes whole (w, err e) framed wrote count sync at r =
      failed whole [] e (subst (IsFrame bytes) (sym (append-nil whole)) framed)
        (λ h. r.fuel (ap err h)) refl (r.wrote ∙ wrote) (r.count ∙ count) (r.synchronized ∙ sync)

  then_read-FeedEnd :
      (o : Oracle) (bytes whole : List ℕ) (end : Outcome (Unit {0}))
      → IsFrame bytes whole
      → end ≡ write_pending probe (length whole) whole o
      → WriteEnd probe o whole end
      → FeedEnd o bytes (then_read probe end)
  then_read-FeedEnd o bytes whole (w, ok done) framed same (all_written e wrote count sync) =
      note_reply-FeedEnd o w bytes whole (read_reply probe 8 [] w) framed wrote count sync
        (ap (λ end. end.0.calls) same)
        (read_reply-ReplyEnd probe 8 [] w (omega arith) (omega arith))
  then_read-FeedEnd o bytes whole (w, err e) framed same (all_written h wrote count sync) =
      absurd (ok_or_err (sym h))
  then_read-FeedEnd o bytes whole (w, ok done) framed same
        (broken_off sent rest e h fuel split wrote c s) =
      absurd (ok_or_err h)
  then_read-FeedEnd o bytes whole (w, err f) framed same
        (broken_off sent rest e h fuel split wrote c s) =
      failed sent rest e (subst (IsFrame bytes) split framed) fuel h wrote c s

  -- However the pipes split what is written and read, a feed ends: it sends one frame of four bytes
  -- with the length and the bytes themselves, and takes its two numbers from the first eight bytes
  -- that can be read behind the last write, of four each, the lowest first; or it raises, with a beginning of the frame sent and the numbers as they were.
  pub feed-FeedEnd : (bytes : List ℕ) (o : Oracle) → FeedEnd o bytes (feed probe bytes o)
  unfolding feed
  feed-FeedEnd bytes o = elim (frame-cases bytes) [
    | inl (long, e) ↦ rw (e, feed) (too_long long refl)
    | inr (whole, e, framed) ↦
        rw (e, feed)
          (then_read-FeedEnd o bytes whole _ framed refl
            (write_pending-WriteEnd probe (length whole) whole o (omega arith)))
  ]
