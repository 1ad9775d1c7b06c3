-- ===== src/Llm/Attempts.antt =====
-- `LLMClient.breaker_for`, `_call_provider` and `_backoff` of backend/app/llm/client.py.
--
-- The world answers at numbered steps: a clock reading, a day, a random delay or a provider's
-- answer is a function of the step at which it is asked for, and each question moves the step on.
-- A state holds what the client object changes, and what the world has seen: the requests sent to
-- providers, the delays slept and the rows handed to `log_call`, each list newest first.
pub mod Run
pub mod Traffic
pub mod Frame
pub mod Delays
use briefed.Base.{
  ℕ, zero, suc, ◌+◌, ◌*◌, ◌^◌, min, String, Bool, false, true, not, ◌||◌, Option, none, some, List,
  ◌∷◌, ◌==◌, if◌then◌else◌,
}
use briefed.Base.Dict.{Dict, lookup, insert, get_or}
use briefed.Base.Result.{Result, ok, err}
use briefed.Llm.Breaker.{CircuitBreaker, new_breaker, before_call, record_success, record_failure}
use briefed.Llm.Quota.{RateCap, consume}
use briefed.Llm.Budget.{BudgetGuard}
use briefed.Llm.Types.{
  PromptSpec, CallResult, ProviderError, circuit_open, cap_exhausted, adapter, retryable,
  ProviderException, llm_provider_error, other_exception, Provider, PromptCallRecord,
}

pub record Env : Type 0 where
  -- `time.monotonic()` in milliseconds
  pub monotonic : ℕ → ℕ
  -- the ordinal of `utcnow().date()`
  pub today : ℕ → ℕ
  -- `random.uniform(0, high)` in milliseconds
  pub uniform : ℕ → ℕ → ℕ

-- `LLMClientConfig`, times in milliseconds.
pub record Config : Type 0 where
  pub max_retries : ℕ
  pub base_backoff : ℕ
  pub max_backoff : ℕ

abbrev pub default_config : Config
default_config = record { max_retries = 3; base_backoff = 500; max_backoff = 6000 }

pub record Request : Type 0 where
  pub provider : String
  pub prompt : String

pub record State : Type 0 where
  pub step : ℕ
  pub breakers : Dict CircuitBreaker
  pub rate_caps : Dict RateCap
  pub budget_guard : Option BudgetGuard
  pub requests : List Request
  pub delays : List ℕ
  pub rows : List PromptCallRecord

-- `breaker_for`: the provider's breaker, made on first use.
unfoldable pub breaker_for : String → State → CircuitBreaker × State
breaker_for name s =
    let b = get_or name new_breaker s.breakers in
    (b, record s { breakers = insert name b s.breakers })

-- What a method of the breaker object in the dictionary leaves there.
abbrev pub put_breaker : String → CircuitBreaker → State → State
put_breaker name b s = record s { breakers = insert name b s.breakers }

-- `breaker.record_success()` on the provider's breaker.
unfoldable pub succeed : String → State → State
unfolding breaker_for record_success
succeed name s = let (b, s') = breaker_for name s in put_breaker name (record_success b) s'

-- `breaker.record_failure()` on the provider's breaker, at the clock's reading.
unfoldable pub fail : Env → String → State → State
unfolding breaker_for record_failure
fail env name s =
    let (b, s') = breaker_for name s in
    let s'' = put_breaker name (record_failure b (env.monotonic s'.step)).0 s' in
    record s'' { step = s''.step + 1 }

-- `_backoff`: the delay before attempt `attempt + 1`.
unfoldable pub backoff : Env → Config → ℕ → ℕ → ℕ
backoff env config attempt step =
    env.uniform (min (config.base_backoff * 2 ^ attempt) config.max_backoff) step

-- `await asyncio.sleep(self._backoff(attempt))`
unfoldable pub sleep : Env → Config → ℕ → State → State
unfolding backoff
sleep env config attempt s = record s {
  step = s.step + 1;
  delays = backoff env config attempt s.step ∷ s.delays;
}

-- How `_call_provider` ends: with a result, an `LLMProviderError`, another exception of the provider,
-- which nothing catches, or its final assertion.
pub data Attempted : Type 0 where
  returned : CallResult → Attempted
  raised : ProviderError → Attempted
  escaped assertion : Attempted

module _ (env : Env) (config : Config) (spec : PromptSpec) (prompt : String) (p : Provider) where
  -- `provider.complete_json(...)`
  unfoldable pub send : State → Result ProviderException CallResult × State
  send s = (
    p.complete_json spec prompt s.step,
    record s {
      step = s.step + 1;
      requests = record { provider = p.name; prompt = prompt } ∷ s.requests;
    },
  )

  -- The `while attempt <= max_retries` loop; the first argument bounds its rounds.
  unfoldable pub attempt_loop : ℕ → ℕ → State → Attempted × State
  attempt_loop zero attempt s = (assertion, s)
  attempt_loop (suc rounds) attempt s =
      let (answer, s1) = send s in
      elim answer [
        | ok result ↦ (returned result, succeed p.name s1)
        | err other_exception ↦ (escaped, s1)
        | err (llm_provider_error e) ↦
            let s2 = fail env p.name s1 in
            let again = attempt_loop rounds (attempt + 1) (sleep env config attempt s2) in
            let error = adapter e.is_retryable in
            if not (retryable error) || (attempt == config.max_retries)
            then (raised error, s2)
            else again
      ]

  -- `breaker.before_call()` on the provider's breaker.
  unfoldable pub is_circuit_open : State → Bool × State
  unfolding breaker_for before_call
  is_circuit_open s =
      let (b, s') = breaker_for p.name s in
      (
        elim (before_call b (env.monotonic s'.step)) [ ok _ ↦ false | err _ ↦ true ],
        record s' { step = s'.step + 1 },
      )

  -- `cap.consume()`, where the provider has a cap; `true` where it raises.
  unfoldable pub is_capped : State → Bool × State
  unfolding consume
  is_capped s = elim (lookup p.name s.rate_caps) [
    | none ↦ (false, s)
    | some cap ↦
        let (r, cap') = consume cap (env.today s.step) in
        (
          elim r [ ok _ ↦ false | err _ ↦ true ],
          record s { step = s.step + 1; rate_caps = insert p.name cap' s.rate_caps },
        )
  ]

  -- `_call_provider`; the loop's rounds are `max_retries + 1`.
  unfoldable pub call_provider : State → Attempted × State
  call_provider s =
      let (is_open, s1) = is_circuit_open s in
      let (capped, s2) = is_capped s1 in
      if is_open
      then (raised circuit_open, s1)
      else if capped
      then (raised cap_exhausted, s2)
      else attempt_loop (config.max_retries + 1) 0 s2
