-- ===== src/Bucket.antt =====
-- `TokenBucket` of backend/app/services/gmail/ratelimit.py. Tokens and clock readings are whole units,
-- and a wait is the fraction that the source divides out. The lock makes each call one step. A sleep
-- ends at the time that the world says.
pub mod Rate
mod Tests
use briefed.Base.{
  ℕ, zero, suc, ◌+◌, ◌-◌, ◌*◌, ◌/◌, min, List, [], ◌∷◌, Bool, ltb, leb, ◌==◌, if◌then◌else◌,
}

pub record TokenBucket : Type 0 where
  pub capacity : ℕ
  pub refill_rate : ℕ
  pub tokens : ℕ
  pub updated_at : ℕ

-- `ValueError`, `ZeroDivisionError`, the return, and a loop that is not done.
pub data Acquired : Type 0 where
  cost_exceeds_capacity division_by_zero granted unfinished : Acquired

-- `TokenBucket(...)` with `__post_init__`
unfoldable pub new_bucket : ℕ → ℕ → ℕ → TokenBucket
new_bucket capacity refill_rate now = record {
  capacity = capacity;
  refill_rate = refill_rate;
  tokens = capacity;
  updated_at = now;
}

-- `_refill`
unfoldable pub refill : ℕ → TokenBucket → TokenBucket
refill now b =
    if ltb b.updated_at now
    then record b {
      tokens = min b.capacity (b.tokens + (now - b.updated_at) * b.refill_rate);
      updated_at = now;
    }
    else b

-- A number of seconds as a fraction.
pub record Seconds : Type 0 where
  pub numerator : ℕ
  pub denominator : ℕ

-- `wait_s`, for fewer tokens than the cost.
unfoldable pub wait_for : ℕ → TokenBucket → Seconds
wait_for cost b = record { numerator = cost - b.tokens; denominator = b.refill_rate }

-- When a sleep ends that begins at a time and is asked to last so long, by the rounds that are left.
abbrev pub Wake : Type 0
Wake = ℕ → ℕ → Seconds → ℕ

-- The `while True` loop, for so many rounds.
unfoldable pub acquire_loop : ℕ → Wake → ℕ → ℕ → TokenBucket → Acquired × TokenBucket
unfolding refill wait_for
acquire_loop zero wake now cost b = (unfinished, b)
acquire_loop (suc rounds) wake now cost b =
    let b' = refill now b in
    let next = acquire_loop rounds wake (wake rounds now (wait_for cost b')) cost b' in
    if leb cost b'.tokens
    then (granted, record b' { tokens = b'.tokens - cost })
    else if b'.refill_rate == 0
    then (division_by_zero, b')
    else next

unfoldable pub acquire : ℕ → Wake → ℕ → ℕ → TokenBucket → Acquired × TokenBucket
unfolding acquire_loop
acquire rounds wake now cost b =
    if ltb b.capacity cost then (cost_exceeds_capacity, b) else acquire_loop rounds wake now cost b
