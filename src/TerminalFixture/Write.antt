-- ===== src/TerminalFixture/Write.antt =====
-- `write_all` loses and repeats nothing.
use telar.Prelude.{
  ℕ, zero, suc, ◌≤◌, ◌≡◌, refl, ap, ◌∙◌, subst, Option, none, some, inl, inr, List, [], ◌∷◌, ◌++◌,
  length, take, drop, take-append-drop, length-drop, Option-cases, arith,
}
use telar.TerminalFixture.{WriteError, out_of_fuel, write_loop, write_all}

append_assoc : (xs ys zs : List ℕ) → (xs ++ ys) ++ zs ≡ xs ++ (ys ++ zs)
append_assoc [] ys zs = refl
append_assoc (x ∷ xs) ys zs = ap (λ l. x ∷ l) (append_assoc xs ys zs)

module _ (os_write : ℕ → List ℕ → Option ℕ) where
  -- What the loop has written is a beginning of the bytes, and all of them unless it failed; and
  -- the loop never stops for want of fuel.
  pub record IsWritten (bytes : List ℕ) (result : List ℕ × Option WriteError) : Type 0 where
    pub left : List ℕ
    pub parts : result.0 ++ left ≡ bytes
    pub whole : result.1 ≡ none → left ≡ []
    pub fueled : ¬ (result.1 ≡ some out_of_fuel)

  write_loop-IsWritten :
      (fuel call : ℕ) (written pending : List ℕ)
      → length pending ≤ fuel
      → IsWritten (written ++ pending) (write_loop os_write fuel call written pending)
  unfolding write_loop
  write_loop-IsWritten fuel call written [] enough = record {
    left = [];
    parts = refl;
    whole = λ h. refl;
    fueled = λ h. cc;
  }
  write_loop-IsWritten zero call written (b ∷ pending) enough = absurd (omega arith)
  write_loop-IsWritten (suc fuel) call written (b ∷ pending) enough =
      elim (Option-cases (os_write call (b ∷ pending))) [
        | inl e ↦
            rw (e, write_loop)
              (record { left = b ∷ pending; parts = refl; whole = λ h. cc; fueled = λ h. cc })
        | inr (zero, e) ↦
            rw (e, write_loop)
              (record { left = b ∷ pending; parts = refl; whole = λ h. cc; fueled = λ h. cc })
        | inr (suc less, e) ↦
            let joined : (written ++ b ∷ take less pending) ++ drop less pending
                ≡ written ++ b ∷ pending =
              append_assoc written (b ∷ take less pending) (drop less pending)
              ∙ ap (λ l. written ++ b ∷ l) (take-append-drop less pending) in
            rw (e, write_loop)
              (subst
                (λ whole. IsWritten whole (
                  write_loop os_write fuel (suc call) (written ++ b ∷ take less pending)
                    (drop less pending)))
                joined
                (write_loop-IsWritten fuel (suc call) (written ++ b ∷ take less pending)
                  (drop less pending) (omega (arith, enough, length-drop less pending))))
      ]

  -- However the system splits the writes, what `write_all` has written is a beginning of the bytes
  -- given, in order, and all of them where it raises nothing; the loop ends by itself.
  pub write_all-IsWritten : (bytes : List ℕ) → IsWritten bytes (write_all os_write bytes)
  unfolding write_all
  write_all-IsWritten bytes = write_loop-IsWritten (length bytes) 0 [] bytes (omega arith)
