-- ===== src/Cleanup/Owned.antt =====
-- `descendants` finds exactly the processes that come from the roots.
use telar.Cleanup.Rows.{row_child, is_child-rows, member-append, child_row, has_row}
use telar.Cleanup.{is_member, pids_of}
use telar.Cleanup.Descendants.{descendants, is_within, children_of, grow_owned}
use telar.Prelude.{
  ◌∙◌, sym, ◌↔◌, length, ◌<◌, ◌≤◌, ap, ℕ, zero, suc, ◌≡◌, refl, Bool, true, false, not, ◌&&◌, ◌||◌,
  List, [], ◌∷◌, ◌++◌, select, count_if, any, Bool-cases, inl, inr, arith,
}
use telar.Prelude.Int.{eq_ℤ_refl, eq_ℤ_sound, ℤ, eq_ℤ}

-- `pid` is a root, or its parent in the table comes from one.
pub data ComesFrom (table : List (ℤ × ℤ)) (roots : List ℤ) : ℤ → Type 0 where
  root : (pid : ℤ) → is_member roots pid ≡ true → ComesFrom table roots pid
  child :
      (pid parent : ℤ)
      → has_row table pid parent ≡ true
      → ComesFrom table roots parent
      → ComesFrom table roots pid

module _ (table : List (ℤ × ℤ)) (roots : List ℤ) where
  AllFrom : List ℤ → Type 0
  AllFrom owned = (pid : ℤ) → is_member owned pid ≡ true → ComesFrom table roots pid

  children-AllFrom : (owned : List ℤ) → AllFrom owned → AllFrom (owned ++ children_of table owned)
  unfolding AllFrom
  children-AllFrom owned from pid h = elim (Bool-cases (is_member owned pid)) [
    | inl old ↦ from pid old
    | inr new ↦
        let (parent, row, owns) = child_row table owned pid (
          ground (
            arith,
            h,
            new,
            member-append owned (children_of table owned) pid,
            is_child-rows table owned pid,
          )) in
        child pid parent row (from parent owns)
  ]

  grow_owned-AllFrom :
      (fuel : ℕ) (owned : List ℤ) → AllFrom owned → AllFrom (grow_owned fuel table owned)
  unfolding grow_owned
  grow_owned-AllFrom zero owned from = from
  grow_owned-AllFrom (suc fuel) owned from =
      elim (Bool-cases (is_within (children_of table owned) owned)) [
        | inl over ↦ rw (over, grow_owned) from
        | inr more ↦ rw (more, grow_owned) (grow_owned-AllFrom fuel _ (children-AllFrom owned from))
      ]

  -- How many processes of some rows are not owned yet.
  missing : List (ℤ × ℤ) → List ℤ → ℕ
  missing rows owned = count_if (λ row. not (is_member owned row.0)) rows

  -- Every child is owned.
  IsClosed : List ℤ → Type 0
  IsClosed owned = is_within (children_of table owned) owned ≡ true

  member_of :
      (owned : List ℤ) (a b : ℤ)
      → eq_ℤ a b ≡ true
      → is_member owned b ≡ true
      → is_member owned a ≡ true
  member_of owned a b e h = rw (eq_ℤ_sound a b e) h

  within_member :
      (some_pids owned : List ℤ) (pid : ℤ)
      → is_within some_pids owned ≡ true
      → is_member some_pids pid ≡ true
      → is_member owned pid ≡ true
  within_member [] owned pid w h = cc
  within_member (c ∷ cs) owned pid w h = elim (Bool-cases (eq_ℤ pid c)) [
    | inl here ↦ member_of owned pid c here (ground (arith, w))
    | inr other ↦ within_member cs owned pid (ground (arith, w)) (ground (arith, h, other))
  ]

  outside :
      (some_pids owned : List ℤ)
      → is_within some_pids owned ≡ false
      → (pid : ℤ) × (is_member some_pids pid ≡ true) × (is_member owned pid ≡ false)
  outside [] owned w = cc
  outside (c ∷ cs) owned w = elim (Bool-cases (is_member owned c)) [
    | inr new ↦ (c, ground (arith, eq_ℤ_refl c), new)
    | inl old ↦
        let (pid, some_pid, new) = outside cs owned (ground (arith, w, old)) in
        (pid, ground (arith, some_pid), new)
  ]

  missing_le :
      (rows : List (ℤ × ℤ)) (owned more : List ℤ)
      → missing rows (owned ++ more) ≤ missing rows owned
  unfolding missing
  missing_le [] owned more = omega arith
  missing_le (row ∷ rows) owned more =
      ground (arith, missing_le rows owned more, member-append owned more row.0)

  missing_lt :
      (rows : List (ℤ × ℤ)) (owned more : List ℤ) (pid : ℤ)
      → is_member owned pid ≡ false
      → is_member more pid ≡ true
      → any (λ row. is_member owned row.1 && eq_ℤ pid row.0) rows ≡ true
      → missing rows (owned ++ more) < missing rows owned
  unfolding missing
  missing_lt [] owned more pid new added h = cc
  missing_lt ((own, parent) ∷ rows) owned more pid new added h = elim (Bool-cases (eq_ℤ pid own)) [
    | inl here ↦
        let e = eq_ℤ_sound pid own here in
        let new' : is_member owned own ≡ false = rw e at new in
        let added' : is_member more own ≡ true = rw e at added in
        ground (arith, new', added', missing_le rows owned more, member-append owned more own)
    | inr other ↦ ground (
      arith,
      missing_lt rows owned more pid new added (ground (arith, h, other)),
      member-append owned more own,
    )
  ]

  grows :
      (owned : List ℤ)
      → is_within (children_of table owned) owned ≡ false
      → missing table (owned ++ children_of table owned) < missing table owned
  grows owned w =
      let (pid, some_child, new) = outside (children_of table owned) owned w in
      missing_lt table owned (children_of table owned) pid new some_child
        (sym (is_child-rows table owned pid) ∙ some_child)

  grow_owned-IsClosed :
      (fuel : ℕ) (owned : List ℤ)
      → missing table owned ≤ fuel
      → IsClosed (grow_owned fuel table owned)
  unfolding grow_owned IsClosed
  grow_owned-IsClosed zero owned enough =
      elim (Bool-cases (is_within (children_of table owned) owned)) [
        | inl over ↦ over
        | inr more ↦ absurd (omega (arith, enough, grows owned more))
      ]
  grow_owned-IsClosed (suc fuel) owned enough =
      elim (Bool-cases (is_within (children_of table owned) owned)) [
        | inl over ↦ rw (over, grow_owned) over
        | inr more ↦
            rw (more, grow_owned)
              (grow_owned-IsClosed fuel _ (omega (arith, enough, grows owned more)))
      ]

  grow_owned-keeps :
      (fuel : ℕ) (owned : List ℤ) (pid : ℤ)
      → is_member owned pid ≡ true
      → is_member (grow_owned fuel table owned) pid ≡ true
  unfolding grow_owned
  grow_owned-keeps zero owned pid h = h
  grow_owned-keeps (suc fuel) owned pid h =
      elim (Bool-cases (is_within (children_of table owned) owned)) [
        | inl over ↦ rw (over, grow_owned) h
        | inr more ↦
            rw (more, grow_owned)
              (grow_owned-keeps fuel _ pid
                (ground (arith, h, member-append owned (children_of table owned) pid)))
      ]

  missing-le-length : (rows : List (ℤ × ℤ)) (owned : List ℤ) → missing rows owned ≤ length rows
  unfolding missing
  missing-le-length [] owned = omega arith
  missing-le-length (row ∷ rows) owned = ground (arith, missing-le-length rows owned)

  abbrev all_owned : List ℤ
  all_owned = grow_owned (length table) table roots

  all_owned_complete : (pid : ℤ) → ComesFrom table roots pid → is_member all_owned pid ≡ true
  unfolding IsClosed
  all_owned_complete pid (root _ h) = grow_owned-keeps (length table) roots pid h
  all_owned_complete pid (child _ parent row from) =
      within_member (children_of table all_owned) all_owned pid
        (grow_owned-IsClosed (length table) roots (missing-le-length table roots))
        (is_child-rows table all_owned pid
          ∙ row_child table all_owned pid parent row (all_owned_complete parent from))

  member-select :
      (q : ℤ → Bool) (pids : List ℤ) (pid : ℤ)
      → any (eq_ℤ pid) (select q pids) ≡ any (λ p. q p && eq_ℤ pid p) pids
  member-select q [] pid = refl
  member-select q (p ∷ pids) pid = go (q p) (member-select q pids pid)
    where
      go :
          (chosen : Bool)
          → any (eq_ℤ pid) (select q pids) ≡ any (λ p. q p && eq_ℤ pid p) pids
          → any (eq_ℤ pid) (elim chosen [ true ↦ p ∷ select q pids | false ↦ select q pids ])
            ≡ ((chosen && eq_ℤ pid p) || any (λ p. q p && eq_ℤ pid p) pids)
      go true h = ap (λ b. eq_ℤ pid p || b) h
      go false h = h

  chosen_iff :
      (owned pids : List ℤ) (pid : ℤ)
      → (any (λ p. is_member owned p && eq_ℤ pid p) pids ≡ true)
        ↔ ((is_member pids pid ≡ true) × (is_member owned pid ≡ true))
  chosen_iff owned [] pid = (λ h. cc, λ h. h.0)
  chosen_iff owned (p ∷ pids) pid = elim (Bool-cases (eq_ℤ pid p)) [
    | inl here ↦
        let e : is_member owned pid ≡ is_member owned p =
          ap (is_member owned) (eq_ℤ_sound pid p here) in
        (
          λ h. elim (Bool-cases (is_member owned p)) [
            | inl owns ↦ (ground (arith, here), e ∙ owns)
            | inr not_owned ↦
                let r = (chosen_iff owned pids pid).0 (ground (arith, h, not_owned)) in
                (ground (arith, here), r.1)
          ],
          λ h. ground (arith, here, e, h.1),
        )
    | inr other ↦ (
      λ h.
          let r = (chosen_iff owned pids pid).0 (ground (arith, h, other)) in
          (ground (arith, r.0), r.1),
      λ h. ground (arith, (chosen_iff owned pids pid).1 (ground (arith, h.0, other), h.1)),
    )
  ]

  -- The loop over the process table ends, and what it returns are exactly the processes of the table
  -- that are roots or come from one, over however many generations and whatever the table's order.
  pub descendants_iff :
      (pid : ℤ)
      → (is_member (descendants table roots) pid ≡ true)
        ↔ ((is_member (pids_of table) pid ≡ true) × ComesFrom table roots pid)
  unfolding descendants AllFrom
  descendants_iff pid =
      let same = member-select (is_member all_owned) (pids_of table) pid in
      let (to, from) = chosen_iff all_owned (pids_of table) pid in
      (
        λ h.
            let r = to (sym same ∙ h) in
            (r.0, grow_owned-AllFrom (length table) roots (λ p m. root p m) pid r.1),
        λ h. same ∙ from (h.0, all_owned_complete pid h.1),
      )
