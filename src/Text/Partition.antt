-- ===== src/Text/Partition.antt =====
-- What `partition` returns, on code points.
use Prim.Native.Char.{code}
use telar.Prelude.{
  ℕ, ◌≡◌, refl, ap, ◌≢◌, inl, inr, String, true, false, ◌∷◌, ◌++◌, All, Bool-cases, ◌==◌, ==_iff,
  arith,
}
use telar.Text.{codes, partition}

-- The text is the part before the mark, the mark and the part behind it.
pub partition-found :
    (mark : ℕ) (text : String)
    → (partition mark text).1 ≡ true
    → codes text ≡ codes (partition mark text).0 ++ mark ∷ codes (partition mark text).2
unfolding partition
partition-found mark String.[] h = cc
partition-found mark (String.◌∷◌ c s) h = elim (Bool-cases (code c == mark)) [
  | inl e ↦ rw e (ap (λ n. n ∷ codes s) ((==_iff (code c) mark).0 e))
  | inr e ↦ rw e (ap (λ cs. code c ∷ cs) (partition-found mark s (rw e at h)))
]

-- Without the mark the first part is the whole text and the last is empty.
pub partition-missing :
    (mark : ℕ) (text : String) → (partition mark text).1 ≡ false → (partition mark text).0 ≡ text
unfolding partition
partition-missing mark String.[] h = refl
partition-missing mark (String.◌∷◌ c s) h = elim (Bool-cases (code c == mark)) [
  | inl e ↦ cc (rw e at h)
  | inr e ↦ rw e (ap (λ t. String.◌∷◌ c t) (partition-missing mark s (rw e at h)))
]

-- The part before the mark does not hold it.
pub partition-before :
    (mark : ℕ) (text : String) → All (λ c. c ≢ mark) (codes (partition mark text).0)
unfolding partition
partition-before mark String.[] = tt
partition-before mark (String.◌∷◌ c s) = elim (Bool-cases (code c == mark)) [
  | inl e ↦ rw e tt
  | inr e ↦ rw e ((ground arith, partition-before mark s))
]
