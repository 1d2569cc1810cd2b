-- ===== src/Placement/Derive/Complete.antt =====
-- What every table of `derive` is made of.
use telar.Placement.Derive.Cells.{HasCell, cell}
use telar.Prelude.{
  any, true, ◌<◌, ◌+◌, ℕ, ◌≡◌, String, Option, none, List, [], ◌∷◌, All, length, str_eq,
}
use telar.Prelude.Result.{ok}
use telar.Number.{IsOrdered, Number}
use telar.Json.{Value}
use telar.Placement.Paired.{paired, Dict, Summary}
use telar.Placement.Session.{Entry}
use telar.Placement.Derive.{Tables, Metric, Series}

module _ (n : Number) where
  open n use {Num}

  -- Every list of the series has one place for each round.
  abbrev Full : ℕ → Series n → Type 0
  Full rounds series = All (λ (row : String × List (Option Num)). length row.1 ≡ rounds) series

module _ (n : Number) (o : IsOrdered n) where
  open n use {Num}

  -- The rounds are those counted and those not; the pairs are wins, losses and ties.
  pub record IsAccount (rounds : ℕ) (row : String × Summary n) : Type 0 where
    pub all_rounds : row.1.runs + row.1.runs_not_counted ≡ rounds
    pub all_pairs : row.1.wins + row.1.losses + row.1.ties ≡ row.1.pairs

  -- The table of a metric of a case: it is the comparison of a series that has, for each of the
  -- names and each round, the value of the last run that counts, or none; and every row of it
  -- accounts for all rounds.
  pub record IsTable (names : List String) (reference : String) (rounds : ℕ) (runs : List (Entry n))
      (case : Value n) (metric : Metric) (table : Dict (Summary n)) : Type 0 where
    pub series : Series n
    pub cells :
        (name : String) (round : ℕ)
        → any (λ k. str_eq k name) names ≡ true
        → round < rounds
        → HasCell n series name round (cell n metric case name round none runs)
    pub places : All (λ (row : String × List (Option Num)). length row.1 ≡ rounds) series
    pub summarized : paired n series reference ≡ ok table
    pub accounts : All (IsAccount rounds) table

  -- One table for each of the metrics.
  abbrev pub AreTables :
      List String
      → String
      → ℕ
      → List (Entry n)
      → Value n
      → List Metric
      → List (Metric × Dict (Summary n))
      → Type 0
  AreTables names reference rounds runs case [] [] = Unit
  AreTables names reference rounds runs case [] (t ∷ tables) = ⊥
  AreTables names reference rounds runs case (m ∷ metrics) [] = ⊥
  AreTables names reference rounds runs case (m ∷ metrics) ((metric, table) ∷ tables) =
      (metric ≡ m)
      × IsTable names reference rounds runs case m table
      × AreTables names reference rounds runs case metrics tables

  -- The tables of each case.
  abbrev pub AllTables : List String → String → ℕ → List (Entry n) → List Metric → Tables n → Type 0
  AllTables names reference rounds runs metrics tables =
      All
        (λ (t : Value n × List (Metric × Dict (Summary n))).
          AreTables names reference rounds runs t.0 metrics t.1)
        tables
