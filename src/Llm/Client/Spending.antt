-- ===== src/Llm/Client/Spending.antt =====
-- The budget guard across a call.
use briefed.Base.{
  ℕ, ◌+◌, ◌≤◌, ◌≡◌, refl, ◌∙◌, ap, sym, Option, none, some, List, arith, ◌==◌, inl, inr,
  Option-cases, subst, if◌then◌else◌,
}
use briefed.Base.Result.{Result, ok, err}
use briefed.Redaction.{RedactionResult}
use briefed.Llm.Budget.{BudgetGuard, check_before_call, record_cost}
use briefed.Llm.Types.{Fields, CallResult, Provider, PromptCallRecord}
use briefed.Llm.Attempts.{Env, State, fail}
use briefed.Llm.Attempts.Frame.{call_provider-Keeps}
use briefed.Llm.Client.{
  Client, Arguments, Failure, CallError, Response, budget_exceeded, prompt_to_send, failure_row,
  log_row, finish, charge, check_budget, call,
}
use briefed.Llm.Client.Tried.{
  Tried, exhausted, unavailable, crashed, invalid, answered, ask, Ended, over_budget, refused,
  tried, call-Ended, redaction_of,
}

-- What the guard counts as spent on a day.
abbrev pub spent_on : ℕ → Option BudgetGuard → ℕ
spent_on day none = 0
spent_on day (some g) = if day == g.day then g.spent else 0

abbrev pub HasCap : ℕ → Option BudgetGuard → Type 0
HasCap cap none = ⊥
HasCap cap (some g) = g.daily_cap ≡ some cap

-- The cost of the answer that a call returns.
abbrev pub cost_of : {Parsed : Type 0} → Result CallError (Response Parsed) → ℕ
cost_of (ok response) = response.call_result.cost_usd
cost_of (err _) = 0

guard-fail : (env : Env) (name : _) (s : State) → (fail env name s).budget_guard ≡ s.budget_guard
unfolding fail
guard-fail env name s = refl

guard-log_row :
    (args : Arguments) (row : PromptCallRecord) (s : State)
    → (log_row args row s).budget_guard ≡ s.budget_guard
guard-log_row args row s = ground arith

-- One guard with a cap, on one day.
module _ (cap day : ℕ) (g : BudgetGuard) (h : g.daily_cap ≡ some cap) where
  record_cost-spent :
      (cost : ℕ)
      → ((record_cost g cost day).daily_cap ≡ some cap)
        × (spent_on day (some (record_cost g cost day)) ≡ spent_on day (some g) + cost)
  unfolding record_cost
  record_cost-spent cost = ground arith

  check-keeps :
      ((check_before_call g day).1.daily_cap ≡ some cap)
      × (spent_on day (some (check_before_call g day).1) ≡ spent_on day (some g))
  unfolding check_before_call
  check-keeps = ground arith

  check-refuses :
      cap ≤ spent_on day (some g)
      → (check_before_call g day).0 ≡ err (record { spent = spent_on day (some g); cap = cap })
  unfolding check_before_call
  check-refuses reached = ground arith

module _ {Parsed : Type 0} (env : Env) (validate : Fields → Option Parsed) (c : Client)
    (args : Arguments) (redaction : Option RedactionResult) (day cap : ℕ)
    (one_day : (step : ℕ) → env.today step ≡ day) where
  guard-ask :
      (p : Provider) (s : State)
      → (ask env validate c args redaction p s).1.budget_guard ≡ s.budget_guard
  guard-ask p s =
      (call_provider-Keeps env c.config args.spec (prompt_to_send args redaction) p s).budget_guard

  abbrev Charged : Option BudgetGuard → Option BudgetGuard → ℕ → Type 0
  Charged before after cost = HasCap cap after × (spent_on day after ≡ spent_on day before + cost)

  charge-Charged :
      (cost : ℕ) (s : State)
      → HasCap cap s.budget_guard
      → Charged s.budget_guard (charge env cost s).budget_guard cost
  unfolding charge
  charge-Charged cost s h = elim (Option-cases s.budget_guard) [
    | inl unguarded ↦ absurd (subst (HasCap cap) unguarded h)
    | inr (g, e) ↦
        rw (e, charge)
          (rw (one_day s.step) (record_cost-spent cap day g (subst (HasCap cap) e h) cost))
  ]

  finish-guard :
      (i : ℕ) (parsed : Parsed) (r : CallResult) (s : State)
      → (finish env validate c args redaction i parsed r s).1.budget_guard
        ≡ (charge env r.cost_usd s).budget_guard
  unfolding finish charge
  finish-guard i parsed r s = ground arith

  finish-cost :
      (i : ℕ) (parsed : Parsed) (r : CallResult) (s : State)
      → (finish env validate c args redaction i parsed r s).0.call_result.cost_usd ≡ r.cost_usd
  unfolding finish
  finish-cost i parsed r s = refl

  Tried-Charged :
      {ps : List Provider} {i : ℕ} {errors : List Failure} {s t : State}
      {out : Result CallError (Response Parsed)}
      → Tried env validate c args redaction ps i errors s out t
      → HasCap cap s.budget_guard
      → Charged s.budget_guard t.budget_guard (cost_of out)
  Tried-Charged {s = s} exhausted h =
      rw (guard-log_row args (failure_row c args redaction) s) (h, omega arith)
  Tried-Charged {s = s} {t = t} {out = out} (unavailable {p} e rest) h =
      subst (λ g. Charged g t.budget_guard (cost_of out)) (guard-ask p s)
        (Tried-Charged rest (subst (HasCap cap) (sym (guard-ask p s)) h))
  Tried-Charged {s = s} (crashed {p} e) h = rw (guard-ask p s) (h, omega arith)
  Tried-Charged {s = s} {t = t} {out = out} (invalid {p} e bad rest) h =
      let m : State = (ask env validate c args redaction p s).1 in
      let same : (fail env p.name m).budget_guard ≡ s.budget_guard =
        guard-fail env p.name m ∙ guard-ask p s in
      subst (λ g. Charged g t.budget_guard (cost_of out)) same
        (Tried-Charged rest (subst (HasCap cap) (sym same) h))
  Tried-Charged {s = s} (answered {p} {ps} {i} {r = r} {parsed = parsed} e good) h =
      let m : State = (ask env validate c args redaction p s).1 in
      rw (finish-guard i parsed r m, finish-cost i parsed r m)
        (subst (λ g. Charged g (charge env r.cost_usd m).budget_guard r.cost_usd) (guard-ask p s)
          (charge-Charged r.cost_usd m (subst (HasCap cap) (sym (guard-ask p s)) h)))

module _ {Parsed : Type 0} (env : Env) (validate : Fields → Option Parsed) (c : Client)
    (args : Arguments) (day cap : ℕ) (one_day : (step : ℕ) → env.today step ≡ day) where
  checked-spent :
      (s : State)
      → HasCap cap s.budget_guard
      → HasCap cap (check_budget env s).1.budget_guard
        × (spent_on day (check_budget env s).1.budget_guard ≡ spent_on day s.budget_guard)
  unfolding check_budget
  checked-spent s h = elim (Option-cases s.budget_guard) [
    | inl unguarded ↦ absurd (subst (HasCap cap) unguarded h)
    | inr (g, e) ↦
        rw (e, check_budget) (rw (one_day s.step) (check-keeps cap day g (subst (HasCap cap) e h)))
  ]

  Ended-spent :
      {s t : State} {out : Result CallError (Response Parsed)}
      → HasCap cap s.budget_guard
      → Ended env validate c args s out t
      → spent_on day t.budget_guard ≡ spent_on day s.budget_guard + cost_of out
  Ended-spent {s} h (over_budget e) = omega (arith, (checked-spent s h).1)
  Ended-spent {s} h (refused e g) = omega (arith, (checked-spent s h).1)
  Ended-spent {s} {out = out} h (tried e g run) =
      (Tried-Charged env validate c args (redaction_of env validate c args) day cap one_day run
        (checked-spent s h).0).1
      ∙ ap (λ k. k + cost_of out) (checked-spent s h).1

  -- On one day, with a capped guard, a call adds to the day's spend exactly the cost of the answer
  -- that it returns, and nothing where it raises.
  pub call-spent :
      (s : State)
      → HasCap cap s.budget_guard
      → let (out, t) = call env validate c args s in
        spent_on day t.budget_guard ≡ spent_on day s.budget_guard + cost_of out
  call-spent s h = Ended-spent h (call-Ended env validate c args s)

  checked-refuses :
      (s : State)
      → HasCap cap s.budget_guard
      → cap ≤ spent_on day s.budget_guard
      → (check_budget env s).0 ≡ err (record { spent = spent_on day s.budget_guard; cap = cap })
  unfolding check_budget
  checked-refuses s h reached = elim (Option-cases s.budget_guard) [
    | inl unguarded ↦ absurd (subst (HasCap cap) unguarded h)
    | inr (g, e) ↦
        rw (e, check_budget)
          (rw (one_day s.step) (
            check-refuses cap day g (subst (HasCap cap) e h)
              (subst (λ b. cap ≤ spent_on day b) e reached)))
  ]

  -- Once the day's spend has reached the cap, every call on that day raises the budget error, which
  -- quotes the two amounts.
  pub call_over_budget :
      (s : State)
      → HasCap cap s.budget_guard
      → cap ≤ spent_on day s.budget_guard
      → (call env validate c args s).0
        ≡ err (budget_exceeded (record { spent = spent_on day s.budget_guard; cap = cap }))
  unfolding call
  call_over_budget s h reached = rw (checked-refuses s h reached, call)
