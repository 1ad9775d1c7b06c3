-- ===== src/Llm/Budget.antt =====
-- `LLMBudgetGuard` of backend/app/llm/client.py. Amounts are whole micro-dollars, so costs are
-- exact and not negative; days are ordinals of `utcnow().date()`.
pub mod Ledger
use briefed.Base.{ℕ, ◌+◌, Option, none, some, leb, ◌==◌, if◌then◌else◌}
use briefed.Base.Result.{Result, ok, err}

pub record BudgetGuard : Type 0 where
  pub daily_cap : Option ℕ
  pub day : ℕ
  pub spent : ℕ

-- `LLMBudgetExceededError`
pub record BudgetExceeded : Type 0 where
  pub spent : ℕ
  pub cap : ℕ

-- The reset on the day's rollover, which both methods begin with.
abbrev roll_over : ℕ → BudgetGuard → BudgetGuard
roll_over today g = if today == g.day then g else record g { day = today; spent = 0 }

abbrev check_cap : ℕ → BudgetGuard → Result BudgetExceeded (Unit {0}) × BudgetGuard
check_cap cap g =
    (if leb cap g.spent then err (record { spent = g.spent; cap = cap }) else ok tt, g)

unfoldable pub check_before_call : BudgetGuard → ℕ → Result BudgetExceeded (Unit {0}) × BudgetGuard
check_before_call g today = elim g.daily_cap [
  | none ↦ (ok tt, g)
  | some cap ↦ check_cap cap (roll_over today g)
]

abbrev add_cost : ℕ → BudgetGuard → BudgetGuard
add_cost cost g = record g { spent = g.spent + cost }

-- `record`
unfoldable pub record_cost : BudgetGuard → ℕ → ℕ → BudgetGuard
record_cost g cost today = elim g.daily_cap [
  | none ↦ g
  | some cap ↦ add_cost cost (roll_over today g)
]
