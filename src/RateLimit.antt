-- ===== src/RateLimit.antt =====
-- `ManualRunRateLimiter` of backend/app/core/rate_limit.py. Times are whole microseconds; the lock
-- makes each check one step, so a sequence of checks is a list.
pub mod Window
pub mod Retry
mod Tests
use briefed.Base.{
  ℕ, ◌+◌, ◌-◌, ◌/◌, max, String, List, [], ◌∷◌, ◌++◌, Bool, leb, length, filter, if◌then◌else◌,
}
use briefed.Base.Dict.{Dict, insert, get_or, lookup}
use briefed.Base.Result.{Result, ok, err}

abbrev pub second : ℕ
second = 1000000

pub record Limiter : Type 0 where
  pub capacity : ℕ
  pub window : ℕ
  pub buckets : Dict (List ℕ)

-- The 429 response, or the `IndexError` of `bucket.timestamps[0]` on an empty bucket.
pub data Refusal : Type 0 where
  too_many : (count retry_after : ℕ) → Refusal
  index_error : Refusal

-- `t >= ts - window`, over signed numbers.
abbrev pub is_recent : ℕ → ℕ → ℕ → Bool
is_recent window ts t = leb ts (t + window)

-- The refusal of a full bucket; `int` rounds the seconds down, and an entry that was kept is not
-- older than the window.
unfoldable pub refusal : ℕ → ℕ → List ℕ → Refusal
refusal window ts [] = index_error
refusal window ts (oldest ∷ rest) =
    too_many (length (oldest ∷ rest)) (max 1 ((oldest + window - ts) / second))

-- `check`, with the time given; a refused check has pruned the bucket too.
unfoldable pub check : Limiter → String → ℕ → Result Refusal (Unit {0}) × Limiter
unfolding refusal
check l user ts =
    let kept = filter (is_recent l.window ts) (get_or user [] l.buckets) in
    if leb l.capacity (length kept)
    then (err (refusal l.window ts kept), record l { buckets = insert user kept l.buckets })
    else (ok tt, record l { buckets = insert user (kept ++ ts ∷ []) l.buckets })
