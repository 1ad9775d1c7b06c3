-- ===== src/Llm/Budget/Ledger.antt =====
-- The guard against a ledger of the costs recorded, each with its day.
use briefed.Base.{
  ℕ, ◌+◌, ◌≤◌, ◌<◌, ◌≡◌, refl, some, List, [], ◌∷◌, arith, leb, ◌==◌, inl, inr, Bool-cases,
  if◌then◌else◌,
}
use briefed.Base.Result.{ok, err}
use briefed.Llm.Budget.{BudgetGuard, check_before_call, record_cost}

abbrev pub fresh : ℕ → ℕ → BudgetGuard
fresh cap start = record { daily_cap = some cap; day = start; spent = 0 }

-- The guard after costs were recorded, newest first, each as its day and its amount.
abbrev pub replay : ℕ → ℕ → List (ℕ × ℕ) → BudgetGuard
replay cap start [] = fresh cap start
replay cap start ((d, cost) ∷ costs) = record_cost (replay cap start costs) cost d

abbrev pub spent_on : ℕ → List (ℕ × ℕ) → ℕ
spent_on day [] = 0
spent_on day ((d, cost) ∷ costs) = (if d == day then cost else 0) + spent_on day costs

abbrev pub newest : ℕ → List (ℕ × ℕ) → ℕ
newest start [] = start
newest start ((d, cost) ∷ costs) = d

abbrev pub IsChronological : ℕ → List (ℕ × ℕ) → Type 0
IsChronological start [] = Unit
IsChronological start ((d, cost) ∷ costs) = (newest start costs ≤ d) × IsChronological start costs

record Tracks (cap start : ℕ) (costs : List (ℕ × ℕ)) (g : BudgetGuard) : Type 0 where
  cap_kept : g.daily_cap ≡ some cap
  day_newest : g.day ≡ newest start costs
  spent_summed : g.spent ≡ spent_on g.day costs

spent_on-later :
    (start day : ℕ) (costs : List (ℕ × ℕ))
    → IsChronological start costs
    → newest start costs < day
    → spent_on day costs ≡ 0
spent_on-later start day [] h later = refl
spent_on-later start day ((d, cost) ∷ []) h later = ground arith
spent_on-later start day ((d, cost) ∷ (e, c) ∷ costs) h later =
    ground (arith, spent_on-later start day ((e, c) ∷ costs) h.1)

module _ (cap start : ℕ) (costs : List (ℕ × ℕ)) (g : BudgetGuard)
    (t : Tracks cap start costs g) where
  record_cost-Tracks :
      (cost d : ℕ)
      → newest start costs ≤ d
      → (newest start costs < d → spent_on d costs ≡ 0)
      → Tracks cap start ((d, cost) ∷ costs) (record_cost g cost d)
  unfolding record_cost
  record_cost-Tracks cost d le none_spent = elim (Bool-cases (d == g.day)) [
    | inl same ↦ ground (arith, t.cap_kept, t.day_newest, t.spent_summed)
    | inr other ↦
        ground (arith, t.cap_kept, t.day_newest, none_spent (ground (arith, t.day_newest)))
  ]

  check-spent :
      (today : ℕ)
      → newest start costs ≤ today
      → (newest start costs < today → spent_on today costs ≡ 0)
      → (check_before_call g today).0 ≡ (
          if leb cap (spent_on today costs)
          then err (record { spent = spent_on today costs; cap = cap })
          else ok tt)
  unfolding check_before_call
  check-spent today le none_spent = elim (Bool-cases (today == g.day)) [
    | inl same ↦ ground (arith, t.cap_kept, t.spent_summed)
    | inr other ↦ ground (arith, t.cap_kept, none_spent (ground (arith, t.day_newest)))
  ]

replay-Tracks :
    (cap start : ℕ) (costs : List (ℕ × ℕ))
    → IsChronological start costs
    → Tracks cap start costs (replay cap start costs)
replay-Tracks cap start [] h = ground arith
replay-Tracks cap start ((d, cost) ∷ costs) h =
    record_cost-Tracks cap start costs (replay cap start costs) (replay-Tracks cap start costs h.1)
      cost d h.0 (spent_on-later start d costs h.1)

-- With a cap and a clock that does not go back, the guard refuses a call on a day exactly when the
-- costs recorded on that day reach the cap, and names that sum; costs of earlier days do not count.
pub check_before_call-replay :
    (cap start today : ℕ) (costs : List (ℕ × ℕ))
    → IsChronological start costs
    → newest start costs ≤ today
    → (check_before_call (replay cap start costs) today).0 ≡ (
        if leb cap (spent_on today costs)
        then err (record { spent = spent_on today costs; cap = cap })
        else ok tt)
check_before_call-replay cap start today costs h le =
    check-spent cap start costs (replay cap start costs) (replay-Tracks cap start costs h) today le
      (spent_on-later start today costs h)
