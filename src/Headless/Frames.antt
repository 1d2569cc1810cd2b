-- ===== src/Headless/Frames.antt =====
-- `last_frame_after` looks at the entries between one input and the next.
use telar.Prelude.{
  length-append, some-injective, ℕ, suc, zero, ◌+◌, ◌-◌, ◌≡◌, refl, ap, ◌∙◌, sym, true, false,
  Option, some, inl, inr, List, [], ◌∷◌, ◌++◌, length, take, drop, select, get_elem?, count_if,
  Bool-cases, arith, if◌then◌else◌,
}
use telar.Prelude.Int.{ℤ}
use telar.Prelude.Result.{ok, index_error, or_raise, >>=-eq-ok, or_raise-eq-ok, ok-injective}
use telar.Headless.{
  Entry, is_input, is_frame_of, input_indices, last, or_else, asked_pane, since_input,
  last_frame_after,
}

-- The entries before the next input.
unfoldable pub before_input : List Entry → List Entry
before_input [] = []
before_input (entry ∷ entries) =
    let rest = before_input entries in if is_input entry then [] else entry ∷ rest

-- The entries around an input: what stands before it, and what stands behind it.
pub record Around (entries : List Entry) (k : ℕ) (entry : Entry) (behind : List Entry)
    : Type 0 where
  pub ahead : List Entry
  pub parts : entries ≡ ahead ++ entry ∷ behind
  pub an_input : is_input entry ≡ true
  pub inputs_ahead : count_if is_input ahead ≡ k

record Found (i : ℕ) (entries : List Entry) (k start : ℕ) : Type 0 where
  entry : Entry
  behind : List Entry
  around : Around entries k entry behind
  at : i + length around.ahead ≡ start
  next :
      get_elem? (input_indices i entries) (suc k) ≡ get_elem? (input_indices (suc start) behind) 0

-- An entry that is no input moves the search by one.
cons-Found :
    (i : ℕ) (entry : Entry) (entries : List Entry) (k start : ℕ)
    → is_input entry ≡ false
    → Found (suc i) entries k start
    → Found i (entry ∷ entries) k start
unfolding input_indices
cons-Found i entry entries k start e f = record {
  entry = f.entry;
  behind = f.behind;
  around = record {
    ahead = entry ∷ f.around.ahead;
    parts = ap (λ l. entry ∷ l) f.around.parts;
    an_input = f.around.an_input;
    inputs_ahead = ground (arith, f.around.inputs_ahead);
  };
  at = omega (arith, f.at);
  next = rw e f.next;
}

-- An input is the one searched for, or moves the search by one and the count too.
head-Found :
    (i : ℕ) (entry : Entry) (entries : List Entry) (start : ℕ)
    → is_input entry ≡ true
    → i ≡ start
    → Found i (entry ∷ entries) 0 start
unfolding input_indices
head-Found i entry entries start e same = record {
  entry = entry;
  behind = entries;
  around = record { ahead = []; parts = refl; an_input = e; inputs_ahead = refl };
  at = omega (arith, same);
  next = rw e (ap (λ j. get_elem? (input_indices (suc j) entries) 0) same);
}

suc-Found :
    (i : ℕ) (entry : Entry) (entries : List Entry) (k start : ℕ)
    → is_input entry ≡ true
    → Found (suc i) entries k start
    → Found i (entry ∷ entries) (suc k) start
unfolding input_indices
suc-Found i entry entries k start e f = record {
  entry = f.entry;
  behind = f.behind;
  around = record {
    ahead = entry ∷ f.around.ahead;
    parts = ap (λ l. entry ∷ l) f.around.parts;
    an_input = f.around.an_input;
    inputs_ahead = ground (arith, f.around.inputs_ahead);
  };
  at = omega (arith, f.at);
  next = rw e f.next;
}

find_input :
    (i : ℕ) (entries : List Entry) (k start : ℕ)
    → get_elem? (input_indices i entries) k ≡ some start
    → Found i entries k start
unfolding input_indices
find_input i [] k start h = cc
find_input i (entry ∷ entries) zero start h = elim (Bool-cases (is_input entry)) [
  | inl e ↦ head-Found i entry entries start e (some-injective (rw e at h))
  | inr e ↦
      cons-Found i entry entries zero start e (find_input (suc i) entries zero start (rw e at h))
]
find_input i (entry ∷ entries) (suc k) start h = elim (Bool-cases (is_input entry)) [
  | inl e ↦ suc-Found i entry entries k start e (find_input (suc i) entries k start (rw e at h))
  | inr e ↦
      cons-Found i entry entries (suc k) start e
        (find_input (suc i) entries (suc k) start (rw e at h))
]

next_index :
    (i : ℕ) (entries : List Entry)
    → or_else (get_elem? (input_indices i entries) 0) (i + length entries)
      ≡ i + length (before_input entries)
unfolding input_indices before_input
next_index i [] = refl
next_index i (entry ∷ entries) = elim (Bool-cases (is_input entry)) [
  | inl e ↦ rw e (omega arith)
  | inr e ↦ rw e (
      ap (or_else (get_elem? (input_indices (suc i) entries) 0)) (omega arith)
      ∙ next_index (suc i) entries
      ∙ omega arith)
]

take-before_input :
    (entries : List Entry) → take (length (before_input entries)) entries ≡ before_input entries
unfolding before_input
take-before_input [] = refl
take-before_input (entry ∷ entries) = elim (Bool-cases (is_input entry)) [
  | inl e ↦ rw e refl
  | inr e ↦ rw e (ap (λ l. entry ∷ l) (take-before_input entries))
]

drop-append :
    {A : Type 0} (xs : List A) (y : A) (ys : List A) → drop (suc (length xs)) (xs ++ y ∷ ys) ≡ ys
drop-append [] y ys = refl
drop-append (x ∷ xs) y ys = drop-append xs y ys

get-append :
    {A : Type 0} (xs : List A) (y : A) (ys : List A) → get_elem? (xs ++ y ∷ ys) (length xs) ≡ some y
get-append [] y ys = refl
get-append (x ∷ xs) y ys = get-append xs y ys

length-parts :
    {A : Type 0} (xs : List A) (y : A) (ys : List A)
    → length (xs ++ y ∷ ys) ≡ suc (length xs) + length ys
length-parts xs y ys = omega (arith, length-append xs (y ∷ ys))

place : (start m : ℕ) → 0 + m ≡ start → start + 1 ≡ suc m
place start m at = omega (arith, at)

same_place : (start m : ℕ) → 0 + m ≡ start → start ≡ m
same_place start m at = omega (arith, at)

-- What the slice between the two indices is.
between :
    (entries : List Entry) (k start : ℕ) (f : Found 0 entries k start)
    → take
        (or_else (get_elem? (input_indices 0 entries) (suc k)) (length entries) - (start + 1))
        (drop (start + 1) entries)
      ≡ before_input f.behind
between entries k start f =
    let ahead = f.around.ahead in
    let size : length entries ≡ suc start + length f.behind =
      ap length f.around.parts ∙ length-parts ahead f.entry f.behind ∙ omega (arith, f.at) in
    let rest : drop (start + 1) entries ≡ f.behind =
      ap (λ m. drop m entries) (place start (length ahead) f.at)
      ∙ ap (drop (suc (length ahead))) f.around.parts
      ∙ drop-append ahead f.entry f.behind in
    let end : or_else (get_elem? (input_indices 0 entries) (suc k)) (length entries)
        ≡ suc start + length (before_input f.behind) =
      ap (λ o. or_else o (length entries)) f.next
      ∙ ap (or_else (get_elem? (input_indices (suc start) f.behind) 0)) size
      ∙ next_index (suc start) f.behind in
    ap
      (λ l.
        take (or_else (get_elem? (input_indices 0 entries) (suc k)) (length entries) - (start + 1))
          l)
      rest
    ∙ ap (λ m. take m f.behind) (omega (arith, end))
    ∙ take-before_input f.behind

-- `last_frame_after` returns only where the trace has an input with `k` inputs before it, and then
-- gives the time from that input to the last frame of its pane, or of the pane asked for, among
-- the entries before the next input, or `None` if these hold no such frame.
pub last_frame_after-ok :
    (entries : List Entry) (k : ℕ) (pane result : Option ℤ)
    → last_frame_after entries k pane ≡ ok result
    → (entry : Entry) × (behind : List Entry) × Around entries k entry behind
      × (result
          ≡ since_input entry
              (last (select (is_frame_of (asked_pane pane entry)) (before_input behind))))
unfolding last_frame_after
last_frame_after-ok entries k pane result h =
    let (start, searched, h1) =
      >>=-eq-ok (or_raise (get_elem? (input_indices 0 entries) k) index_error) _ h in
    let (entry, read, h2) = >>=-eq-ok (or_raise (get_elem? entries start) index_error) _ h1 in
    let f = find_input 0 entries k start (or_raise-eq-ok _ _ searched) in
    let read_slice : List Entry =
      take (or_else (get_elem? (input_indices 0 entries) (suc k)) (length entries) - (start + 1))
        (drop (start + 1) entries) in
    let same : entry ≡ f.entry = some-injective (
      sym (or_raise-eq-ok _ _ read)
      ∙ ap (get_elem? entries) (same_place start (length f.around.ahead) f.at)
      ∙ ap (λ l. get_elem? l (length f.around.ahead)) f.around.parts
      ∙ get-append f.around.ahead f.entry f.behind) in
    (
      f.entry,
      f.behind,
      f.around,
      sym (ok-injective h2)
          ∙ ap (λ x. since_input x (last (select (is_frame_of (asked_pane pane x)) read_slice)))
              same
          ∙ ap (λ l. since_input f.entry (last (select (is_frame_of (asked_pane pane f.entry)) l)))
              (between entries k start f),
    )
