-- ===== src/Echo/Chains.antt =====
-- The chains that are found: what their events are, and in which order.
use telar.Vm.System.{value_error}
use telar.Echo.{
  read_traces, chains_in, is_unnamed, chain_of, TraceRow, load_events, fixture_chains, every_other,
  blocks_from, is_event, insert_event, match_chain, sort_events, Event,
}
use mathlib.Core.List.{append_assoc}
use telar.Prelude.{
  ◌==◌, if◌then◌else◌, not, zero, suc, any, suc, All-mono, some-injective, ℕ, ◌+◌, ◌<◌, ◌≡◌, refl,
  ap, ◌∙◌, subst, inl, inr, Bool-cases, Option-cases, String, Bool, true, false, some, List, [],
  ◌∷◌, ◌++◌, map, length, drop, somes, arith, All, eq_iff,
}
use telar.Prelude.Int.{leb_ℤ, ◌≤ℤ◌}
use telar.Prelude.Result.{
  ok-injective, value_error, key_error, key_error, guard-eq-ok, >>=-eq-ok, ok,
}

-- The events of one list stand in the other, in their order.
pub data Picked : List Event → List Event → Type 0 where
  end : {events : List Event} → Picked [] events
  take :
      {e : Event} {some_of events : List Event}
      → Picked some_of events
      → Picked (e ∷ some_of) (e ∷ events)
  skip :
      {e : Event} {some_of events : List Event}
      → Picked some_of events
      → Picked some_of (e ∷ events)

-- No event is later than one behind it.
abbrev pub InTime : List Event → Type 0
InTime [] = Unit
InTime (e ∷ events) = All (λ f. e.ns ≤ℤ f.ns) events × InTime events

-- A chain has the tags, once each and in their order, and its events are events of the traces in
-- the order of their clocks.
pub record IsChain (tags : List String) (events chain : List Event) : Type 0 where
  pub tagged : map (λ e. e.event) chain ≡ map some tags
  pub in_time : InTime chain
  pub picked : Picked chain events

Picked-All : (P : Event → Type 0) (xs ys : List Event) → Picked xs ys → All P ys → All P xs
Picked-All P _ _ end h = tt
Picked-All P _ _ (take {some_of = xs} {events = ys} p) h = (h.0, Picked-All P xs ys p h.1)
Picked-All P xs _ (skip {events = ys} p) h = Picked-All P xs ys p h.1

Picked-InTime : (xs ys : List Event) → Picked xs ys → InTime ys → InTime xs
Picked-InTime _ _ end h = tt
Picked-InTime _ _ (take {some_of = xs} {events = ys} p) h =
    (Picked-All _ xs ys p h.0, Picked-InTime xs ys p h.1)
Picked-InTime xs _ (skip {events = ys} p) h = Picked-InTime xs ys p h.1

insert_event-All :
    (P : Event → Type 0) (e : Event) (xs : List Event) → P e → All P xs → All P (insert_event e xs)
insert_event-All P e [] p h = (p, tt)
insert_event-All P e (x ∷ xs) p h = elim (Bool-cases (leb_ℤ e.ns x.ns)) [
  | inl le ↦ rw le (p, h)
  | inr gt ↦ rw gt (h.0, insert_event-All P e xs p h.1)
]

insert_event-InTime : (e : Event) (xs : List Event) → InTime xs → InTime (insert_event e xs)
insert_event-InTime e [] h = (tt, tt)
insert_event-InTime e (x ∷ xs) h = elim (Bool-cases (leb_ℤ e.ns x.ns)) [
  | inl le ↦
      let first : e.ns ≤ℤ x.ns = ground arith in
      rw le ((first, All-mono (λ f q. omega (arith, first, q)) xs h.0), h)
  | inr gt ↦
      rw gt
        (insert_event-All (λ f. x.ns ≤ℤ f.ns) e xs (ground arith) h.0, insert_event-InTime e xs h.1)
]

sort_events-InTime : (xs : List Event) → InTime (sort_events xs)
unfolding sort_events
sort_events-InTime [] = tt
sort_events-InTime (x ∷ xs) = insert_event-InTime x (sort_events xs) (sort_events-InTime xs)

is_event-eq : (tag : String) (e : Event) → is_event tag e ≡ true → e.event ≡ some tag
is_event-eq tag e h = elim (Option-cases e.event) [
  | inl n ↦ cc (rw n at h)
  | inr (name, n) ↦ n ∙ ap some ((eq_iff name tag).0 (rw n at h))
]

match_chain-Picked :
    (tags : List String) (events chain : List Event)
    → match_chain tags events ≡ some chain
    → Picked chain events × (map (λ e. e.event) chain ≡ map some tags)
unfolding match_chain
match_chain-Picked [] events chain h =
    subst (λ c. Picked c events × (map (λ e. e.event) c ≡ [])) (some-injective h) (end, refl)
match_chain-Picked (tag ∷ tags) [] chain h = cc
match_chain-Picked (tag ∷ tags) (e ∷ events) chain h = elim (Bool-cases (is_event tag e)) [
  | inr other ↦
      let (p, q) = match_chain-Picked (tag ∷ tags) events chain (rw (other, match_chain) at h) in
      (skip p, q)
  | inl same ↦ elim (Option-cases (match_chain tags events)) [
    | inl none_left ↦ cc (rw (same, match_chain, none_left) at h)
    | inr (later, found) ↦
        let (p, q) = match_chain-Picked tags events later found in
        subst (λ c. Picked c (e ∷ events) × (map (λ f. f.event) c ≡ map some (tag ∷ tags)))
          (some-injective (rw (same, match_chain, found) at h))
          (take p, rw (is_event-eq tag e same, q) refl)
  ]
]

Picked_refl : (xs : List Event) → Picked xs xs
Picked_refl [] = end
Picked_refl (x ∷ xs) = take (Picked_refl xs)

Picked_behind : (front xs ys : List Event) → Picked xs ys → Picked xs (front ++ ys)
Picked_behind [] xs ys p = p
Picked_behind (e ∷ front) xs ys p = skip (Picked_behind front xs ys p)

Picked_before : (front back : List Event) → Picked front (front ++ back)
Picked_before [] back = end
Picked_before (e ∷ front) back = take (Picked_before front back)

Picked_trans : (xs ys zs : List Event) → Picked xs ys → Picked ys zs → Picked xs zs
Picked_trans xs ys _ p (skip {events = zs} q) = skip (Picked_trans xs ys zs p q)
Picked_trans _ _ _ end q = end
Picked_trans _ _ _ (take {some_of = xs} p) (take {some_of = ys} {events = zs} q) =
    take (Picked_trans xs ys zs p q)
Picked_trans xs _ _ (skip p) (take {some_of = ys} {events = zs} q) =
    skip (Picked_trans xs ys zs p q)

-- Each block consists of events of the traces.
blocks_from-Picked :
    (block events : List Event) → All (λ b. Picked b (block ++ events)) (blocks_from block events)
unfolding blocks_from
blocks_from-Picked block [] = tt
blocks_from-Picked [] (e ∷ events) = elim (Bool-cases (is_event "host_read" e)) [
  | inl opens ↦ rw (opens, blocks_from) (blocks_from-Picked (e ∷ []) events)
  | inr other ↦ rw (other, blocks_from) (All-mono (λ b p. skip p) _ (blocks_from-Picked [] events))
]
blocks_from-Picked (b ∷ block) (e ∷ events) = elim (Bool-cases (is_event "host_read" e)) [
  | inl closes ↦
      rw (closes, blocks_from)
        (
          Picked_before (b ∷ block) (e ∷ events),
          All-mono (λ c p. Picked_behind (b ∷ block) c (e ∷ events) p) _
              (blocks_from-Picked (e ∷ []) events),
        )
  | inr other ↦
      rw (other, blocks_from)
        (subst (λ whole. All (λ c. Picked c whole) (blocks_from (b ∷ block ++ e ∷ []) events))
          (append_assoc (b ∷ block) (e ∷ []) events)
          (blocks_from-Picked (b ∷ block ++ e ∷ []) events))
]

drop-All : (P : List Event → Type 0) (n : ℕ) (xs : List (List Event)) → All P xs → All P (drop n xs)
drop-All P zero xs h = h
drop-All P (suc n) [] h = tt
drop-All P (suc n) (x ∷ xs) h = drop-All P n xs h.1

every_other-All :
    (P : List Event → Type 0) (xs : List (List Event)) → All P xs → All P (every_other xs)
every_other-All P [] h = tt
every_other-All P (x ∷ []) h = (h.0, tt)
every_other-All P (x ∷ y ∷ xs) h = (h.0, every_other-All P xs h.1.1)

matched-IsChain :
    (tags : List String) (events : List Event)
    → InTime events
    → (blocks : List (List Event)) → All (λ b. Picked b events) blocks
    → All (IsChain tags events) (somes (map (match_chain tags) blocks))
matched-IsChain tags events sorted [] h = tt
matched-IsChain tags events sorted (b ∷ blocks) h = elim (Option-cases (match_chain tags b)) [
  | inl e ↦ rw e (matched-IsChain tags events sorted blocks h.1)
  | inr (chain, e) ↦
      let (p, q) = match_chain-Picked tags b chain e in
      let whole = Picked_trans chain b events p h.0 in
      rw e (
        record { tagged = q; in_time = Picked-InTime chain events whole sorted; picked = whole },
        matched-IsChain tags events sorted blocks h.1,
      )
]

chains_in-IsChain :
    (erase : Bool) (events : List Event)
    → InTime events
    → All (IsChain (chain_of events) events) (chains_in erase events)
unfolding chains_in
chains_in-IsChain erase events sorted = matched-IsChain (chain_of events) events sorted _ (
    every_other-All (λ b. Picked b events) _
      (drop-All (λ b. Picked b events) (40 + (if erase then 1 else 0)) (blocks_from [] events)
        (blocks_from-Picked [] events)))

load_events-InTime :
    (paths : List (String × List TraceRow)) (events : List Event)
    → load_events paths ≡ ok events
    → InTime events
unfolding load_events
load_events-InTime paths events h =
    let (two, h1) = guard-eq-ok (not (length paths == 2)) value_error _ h in
    let (read, r, h2) = >>=-eq-ok (read_traces paths) _ h1 in
    subst InTime (ok-injective h2) (sort_events-InTime read)

positive : (n : ℕ) → (n == 0) ≡ false → 0 < n
positive n h = ground arith

-- What `fixture_chains` returns: at least one chain, and each is made of events of the two traces
-- that carry the expected tags, once each and in the order of the chain, with no event later than
-- one behind it.
pub fixture_chains-IsChain :
    (paths : List (String × List TraceRow)) (erase : Bool) (chains : List (List Event))
    → fixture_chains paths erase ≡ ok chains
    → (events : List Event) × (load_events paths ≡ ok events)
      × (0 < length chains)
      × All (IsChain (chain_of events) events) chains
unfolding fixture_chains load_events
fixture_chains-IsChain paths erase chains h =
    let (events, loaded, h1) = >>=-eq-ok (load_events paths) _ h in
    let (named, h2) = guard-eq-ok (any is_unnamed events) key_error _ h1 in
    let (some_found, h3) = guard-eq-ok (length (chains_in erase events) == 0) value_error _ h2 in
    let same : chains_in erase events ≡ chains = ok-injective h3 in
    (
      events,
      loaded,
      subst (λ c. 0 < length c) same (positive _ some_found),
      subst (All (IsChain (chain_of events) events)) same
          (chains_in-IsChain erase events (load_events-InTime paths events loaded)),
    )
