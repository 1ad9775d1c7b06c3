-- ===== src/Llm/Breaker.antt =====
-- `CircuitBreaker` of backend/app/llm/client.py. Times are readings of `time.monotonic()` in
-- milliseconds, handed in by the caller.
pub mod History
use briefed.Base.{
  ℕ, zero, ◌+◌, Bool, true, false, not, Option, none, some, ltb, leb, is_some, if◌then◌else◌,
}
use briefed.Base.Result.{Result, ok, err}

pub record CircuitBreaker : Type 0 where
  pub fail_threshold : ℕ
  pub cool_down : ℕ
  pub consecutive_failures : ℕ
  pub opened_at : Option ℕ

-- `CircuitOpenError`; the provider's name in it is the constant "<self>".
pub record CircuitOpenError : Type 0 where
  pub reset_at : ℕ

-- The dataclass's defaults: five failures, sixty seconds.
abbrev pub new_breaker : CircuitBreaker
new_breaker = record {
  fail_threshold = 5;
  cool_down = 60000;
  consecutive_failures = 0;
  opened_at = none;
}

-- `now - opened_at < cool_down_seconds` over signed numbers, without the subtraction.
unfoldable pub before_call : CircuitBreaker → ℕ → Result CircuitOpenError (Unit {0})
before_call b now = elim b.opened_at [
  | none ↦ ok tt
  | some t ↦
      if ltb now (t + b.cool_down) then err (record { reset_at = t + b.cool_down }) else ok tt
]

unfoldable pub record_success : CircuitBreaker → CircuitBreaker
record_success b = record b { consecutive_failures = 0; opened_at = none }

-- The flag is the method's result: whether to emit `llm.breaker.opened`.
unfoldable pub record_failure : CircuitBreaker → ℕ → CircuitBreaker × Bool
record_failure b now =
    let was_open = is_some b.opened_at in
    let failures = b.consecutive_failures + 1 in
    if leb b.fail_threshold failures
    then (record b { consecutive_failures = failures; opened_at = some now }, not was_open)
    else (record b { consecutive_failures = failures }, false)
