-- ===== src/Llm/Quota.antt =====
-- `RateCap` of backend/app/llm/client.py. Days are ordinals of `utcnow().date()`.
pub mod Days
use briefed.Base.{ℕ, ◌+◌, Bool, leb, ◌==◌, if◌then◌else◌}
use briefed.Base.Result.{Result, ok, err}

pub record RateCap : Type 0 where
  pub max_calls : ℕ
  pub day : ℕ
  pub used : ℕ

-- The exception of an exhausted cap; its message quotes the two numbers.
pub record CapExhausted : Type 0 where
  pub used : ℕ
  pub max_calls : ℕ

abbrev on_day : ℕ → RateCap → RateCap
on_day today c = if today == c.day then c else record c { day = today; used = 0 }

unfoldable pub consume : RateCap → ℕ → Result CapExhausted (Unit {0}) × RateCap
consume c today =
    let c' = on_day today c in
    if leb c'.max_calls c'.used
    then (err (record { used = c'.used; max_calls = c'.max_calls }), c')
    else (ok tt, record c' { used = c'.used + 1 })
