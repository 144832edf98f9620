-- ===== src/Load/Shares.antt =====
-- Which rolls choose which scenario.
use polyglot_infinity.Prelude.{
  ℕ, ◌≤◌, ◌<◌, ◌≡◌, ◌≢◌, ◌↔◌, inl, inr, none, some, List, [], ◌∷◌, ◌++◌, arith, take, drop, All,
  ltb, Bool-cases,
}
use polyglot_infinity.Load.Scenario.{history, report, pipeline_trigger, workflow_risk}
use polyglot_infinity.Load.Table.{choose, scenarios}

module _ {A : Type 0} where
  -- The ceilings do not fall, from a first one on.
  abbrev pub IsAscending : ℕ → List (ℕ × A) → Type 0
  IsAscending p [] = Unit
  IsAscending p ((c, s) ∷ table) = (p ≤ c) × IsAscending c table

  -- The last ceiling.
  abbrev pub top : ℕ → List (ℕ × A) → ℕ
  top p [] = p
  top p ((c, s) ∷ table) = top c table

  abbrev pub IsOther : A → List (ℕ × A) → Type 0
  IsOther s = All (λ e. e.1 ≢ s)

  le-top : (p : ℕ) (table : List (ℕ × A)) → IsAscending p table → p ≤ top p table
  le-top p [] h = omega arith
  le-top p ((c, s) ∷ table) h = omega (arith, le-top c table h.1, h.0)

  IsAscending-before :
      (p : ℕ) (before after : List (ℕ × A)) → IsAscending p (before ++ after) → IsAscending p before
  IsAscending-before p [] after h = tt
  IsAscending-before p ((c, s) ∷ before) after h = (h.0, IsAscending-before c before after h.1)

  choose-IsOther :
      (table : List (ℕ × A)) (s : A) (roll : ℕ) → IsOther s table → choose table roll ≢ some s
  unfolding choose
  choose-IsOther [] s roll h = cc
  choose-IsOther ((c, t) ∷ table) s roll h =
      let (this, rest) = h in ground (arith, choose-IsOther table s roll rest)

  choose_iff_from :
      (p c : ℕ) (s : A) (before after : List (ℕ × A)) (roll : ℕ)
      → p ≤ roll
      → IsAscending p before
      → IsOther s before
      → IsOther s after
      → (choose (before ++ (c, s) ∷ after) roll ≡ some s) ↔ ((top p before ≤ roll) × (roll < c))
  unfolding choose
  choose_iff_from p c s [] after roll h asc o o' = ground (arith, choose-IsOther after s roll o')
  choose_iff_from p c s ((d, t) ∷ before) after roll h asc o o' =
      let (other, others) = o in
      elim (Bool-cases (ltb roll d)) [
        | inl e ↦ rw e (ground (arith, le-top d before asc.1))
        | inr e ↦ rw e (choose_iff_from d c s before after roll (ground arith) asc.1 others o')
      ]

  -- In a table whose ceilings do not fall, an entry of which the scenario stands nowhere else is
  -- chosen by exactly the rolls from the ceiling before it up to its own.
  pub choose_iff :
      (c : ℕ) (s : A) (before after : List (ℕ × A)) (roll : ℕ)
      → IsAscending 0 before
      → IsOther s before
      → IsOther s after
      → (choose (before ++ (c, s) ∷ after) roll ≡ some s) ↔ ((top 0 before ≤ roll) × (roll < c))
  choose_iff c s before after roll = choose_iff_from 0 c s before after roll (omega arith)

  -- A roll below the last ceiling chooses an entry.
  pub choose-ne-none_from :
      (p : ℕ) (table : List (ℕ × A)) (roll : ℕ)
      → p ≤ roll
      → roll < top p table
      → choose table roll ≢ none
  unfolding choose
  choose-ne-none_from p [] roll h k = absurd (omega arith)
  choose-ne-none_from p ((c, s) ∷ table) roll h k = elim (Bool-cases (ltb roll c)) [
    | inl e ↦ rw e (cc)
    | inr e ↦ rw e (choose-ne-none_from c table roll (ground arith) k)
  ]

-- Every roll from 0 to 99 chooses a scenario.
pub choose-scenarios : (roll : ℕ) → roll < 100 → choose scenarios roll ≢ none
choose-scenarios roll h = choose-ne-none_from 0 scenarios roll (omega arith) h

-- Two scenarios are chosen by no roll at all, the history and the pipeline trigger. The report is
-- chosen by the ten rolls from 36 to 45, and the workflow risk by the three from 76 to 78.
pub dead_scenarios :
    (roll : ℕ)
    → (choose scenarios roll ≢ some history)
      × (choose scenarios roll ≢ some pipeline_trigger)
      × ((choose scenarios roll ≡ some report) ↔ ((36 ≤ roll) × (roll < 46)))
      × ((choose scenarios roll ≡ some workflow_risk) ↔ ((76 ≤ roll) × (roll < 79)))
dead_scenarios roll = (
  λ e. absurd (
      omega (
        arith,
        (choose_iff 36 history (take 4 scenarios) (drop 5 scenarios) roll (omega arith)
              (ground arith) (ground arith)).0
            e,
      )),
  λ e. absurd (
      omega (
        arith,
        (choose_iff 76 pipeline_trigger (take 19 scenarios) (drop 20 scenarios) roll (omega arith)
              (ground arith) (ground arith)).0
            e,
      )),
  choose_iff 46 report (take 5 scenarios) (drop 6 scenarios) roll (omega arith) (ground arith)
      (ground arith),
  choose_iff 79 workflow_risk (take 20 scenarios) (drop 21 scenarios) roll (omega arith)
      (ground arith) (ground arith),
)
