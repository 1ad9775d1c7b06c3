-- ===== src/Llm/Tests.antt =====
-- The client on two providers: one that fails with retryable errors, and one that answers.
use briefed.Base.{
  ℕ, ◌+◌, ◌*◌, ◌/◌, ◌≤◌, ◌≡◌, refl, true, false, Option, none, some, List, [], ◌∷◌, arith, length,
  min, leb, ◌==◌, ◌&&◌, if◌then◌else◌,
}
use briefed.Base.Dict.{lookup, insert}
use briefed.Base.Result.{Result, ok, err}
use briefed.Redaction.{Sanitizer}
use briefed.Llm.Breaker.{CircuitBreaker, new_breaker, before_call, record_success, record_failure}
use briefed.Llm.Breaker.History
use briefed.Llm.Quota.{consume}
use briefed.Llm.Quota.Days
use briefed.Llm.Budget.{BudgetGuard, check_before_call, record_cost}
use briefed.Llm.Budget.Ledger
use briefed.Llm.Types.{
  llm_provider_error, Fields, no_fields, field, text, PromptSpec, CallResult, Provider,
}
use briefed.Llm.Attempts.{
  Env, default_config, State, call_provider, send, fail, succeed, sleep, backoff, attempt_loop,
  breaker_for, is_circuit_open, is_capped,
}
use briefed.Llm.Attempts.Traffic.{Sends}
use briefed.Llm.Attempts.Delays.{Sleeps, call_provider-Sleeps}
use briefed.Llm.Prompt.{placeholders_from, render_prompt}
use briefed.Llm.Client.{
  Client, Arguments, CallError, Response, budget_exceeded, call, try_chain, check_budget,
  check_reidentify, active_sanitizer, redact, prompt_to_send, finish, charge, payload_of,
  answer_row, failure_row,
}
use briefed.Llm.Client.Outcome.{IsRefused, Untouched, call_reidentify}
use briefed.Llm.Client.Privacy.{HasPrompt, allowance, call-Sends_redacted}
use briefed.Llm.Client.Spending.{spent_on, cost_of, call-spent, call_over_budget}

-- The clock moves a second with each step; the random delay is the middle of its range.
abbrev env : Env
env = record {
  monotonic = λ step. step * 1000;
  today = λ step. 20;
  uniform = λ high step. high / 2;
}

abbrev answer : CallResult
answer = record {
  payload = field "label" (text "ignore") no_fields;
  tokens_in = 900;
  tokens_out = 40;
  tokens_cache_read = 0;
  tokens_cache_write = 0;
  cost_usd = 1200;
  latency_ms = 800;
  provider = "backup";
  model = "small";
}

abbrev flaky : Provider
flaky = record {
  name = "primary";
  complete_json = λ spec prompt step. err (llm_provider_error (record { is_retryable = true }));
}

abbrev backup : Provider
backup = record { name = "backup"; complete_json = λ spec prompt step. ok answer }

abbrev masking : Sanitizer
masking = record {
  sanitize = λ t. record { text = "masked"; reversal_map = []; counts_by_kind = ("EMAIL", 1) ∷ [] };
}

abbrev client : Client
client = record {
  primary = flaky;
  fallbacks = backup ∷ [];
  config = default_config;
  sanitizer = some masking;
}

abbrev spec : PromptSpec
spec = record {
  name = "triage";
  version = 1;
  content = "{{subject}}";
  system = "";
  model = "small";
  temperature = 0;
  max_tokens = 512;
  cache_tier = "none";
  schema_ref = "TriageDecision";
  extras = no_fields;
}

abbrev args : Arguments
args = record {
  spec = spec;
  rendered_prompt = "from a@b.c";
  prompt_version_id = "v1";
  email_id = some "m1";
  run_id = none;
  logs = true;
  sanitizer = none;
  reidentify = false;
  flow = none;
}

abbrev validate : Fields → Option ℕ
validate no_fields = none
validate (field k v fs) = some 7

abbrev guard : BudgetGuard
guard = record { daily_cap = some 5000; day = 20; spent = 4000 }

abbrev start : State
start = record {
  step = 0;
  breakers = [];
  rate_caps = ("primary", record { max_calls = 2; day = 20; used = 1 }) ∷ [];
  budget_guard = some guard;
  requests = [];
  delays = [];
  rows = [];
}

-- The call on these values, open down to the dictionaries.
run_client : Client → State → Result CallError (Response ℕ) × State
unfolding call try_chain call_provider is_circuit_open is_capped consume attempt_loop send fail
    succeed sleep backoff check_budget check_before_call check_reidentify active_sanitizer redact
    prompt_to_send finish charge record_cost payload_of answer_row failure_row lookup insert
    breaker_for before_call record_failure record_success
run_client c s = call env validate c args s

after_one_call : length (run_client client start).1.requests ≡ 5
unfolding run_client
after_one_call = refl

rows_of_one_call : length (run_client client start).1.rows ≡ 1
unfolding run_client
rows_of_one_call = refl

abbrev two_failures : List History.Outcome
two_failures =
    History.failed 8000 ∷ History.failed 5000 ∷ History.succeeded ∷ History.failed 1000 ∷ []

before_call-replay_example :
    History.is_refused (before_call (History.replay 2 60000 two_failures) 9000)
    ≡ leb 2 (History.failure_run two_failures)
      && History.is_cooling 60000 9000 (History.failed_at two_failures)
before_call-replay_example = History.before_call-replay 2 60000 9000 two_failures

record_failure-opened_example :
    (record_failure (History.replay 2 60000 two_failures) 90000).1 ≡ (3 == 2)
record_failure-opened_example =
    History.record_failure-opened 2 60000 90000 two_failures (omega arith)

abbrev days : List ℕ
days = 21 ∷ 20 ∷ 20 ∷ 20 ∷ []

consume-admitted_example : Days.admitted_on 2 20 20 days ≡ min 2 (Days.tried_on 20 days)
consume-admitted_example = Days.consume-admitted 2 20 20 days (omega arith)

abbrev costs : List (ℕ × ℕ)
costs = (21, 300) ∷ (20, 700) ∷ (20, 500) ∷ []

check_before_call-replay_example : (check_before_call (Ledger.replay 1000 20 costs) 21).0 ≡ (
    if leb 1000 (Ledger.spent_on 21 costs)
    then err (record { spent = Ledger.spent_on 21 costs; cap = 1000 })
    else ok tt)
check_before_call-replay_example =
    Ledger.check_before_call-replay 1000 20 21 costs (omega arith) (omega arith)

uniform-le : (high step : ℕ) → env.uniform high step ≤ high
uniform-le high step = omega arith

call_provider-Sleeps_example :
    Sleeps 6000 3 start (call_provider env default_config spec "masked" flaky start).1
call_provider-Sleeps_example =
    call_provider-Sleeps env default_config spec "masked" flaky uniform-le start

abbrev cooling : CircuitBreaker
cooling = record new_breaker { consecutive_failures = 5; opened_at = some 0 }

abbrev start_open : State
start_open = record start { breakers = ("primary", cooling) ∷ [] }

abbrev restoring : Arguments
restoring = record args { reidentify = true; flow = some "triage" }

call_reidentify_example :
    let (out, t) = call env validate client restoring start in
    IsRefused env validate client restoring out × Untouched start t
call_reidentify_example = call_reidentify env validate client restoring start refl

call-Sends_redacted_example :
    Sends (HasPrompt "masked") (allowance client) start (call env validate client args start).1
unfolding active_sanitizer
call-Sends_redacted_example = call-Sends_redacted env validate client args masking start refl

one_day : (step : ℕ) → env.today step ≡ 20
one_day step = refl

call-spent_example :
    let (out, t) = call env validate client args start in
    spent_on 20 t.budget_guard ≡ spent_on 20 start.budget_guard + cost_of out
call-spent_example = call-spent env validate client args 20 5000 one_day start refl

abbrev start_spent : State
start_spent = record start { budget_guard = some (record guard { spent = 5200 }) }

call_over_budget_example :
    (call env validate client args start_spent).0
    ≡ err (budget_exceeded (record { spent = 5200; cap = 5000 }))
call_over_budget_example =
    call_over_budget env validate client args 20 5000 one_day start_spent refl (omega arith)

-- A placeholder with spaces inside is found, but not replaced.
abbrev hello : PromptSpec
hello = record {
  name = "triage";
  version = 1;
  content = "Hi {{name}}, {{ x }} {curly} {{name}} {{9}}.";
  system = "";
  model = "m";
  temperature = 0;
  max_tokens = 1;
  cache_tier = "";
  schema_ref = "";
  extras = no_fields;
}

scanned : placeholders_from 0 hello.content ≡ "name" ∷ "x" ∷ "name" ∷ []
unfolding placeholders_from
scanned = refl

rendered :
    render_prompt (λ names. names) hello (("name", "Bo") ∷ ("x", "y") ∷ [])
    ≡ some "Hi Bo, {{ x }} {curly} Bo {{9}}."
unfolding render_prompt
rendered = refl
