-- ===== src/Llm/Client.antt =====
-- `LLMClient.call` of backend/app/llm/client.py. The schema's validation (pydantic) is a parameter;
-- `log_call`, where it is given, is taken to add the row to the state's rows and not to fail.
pub mod Tried
pub mod Outcome
pub mod Privacy
pub mod Spending
use briefed.Base.{
  ℕ, ◌+◌, String, Bool, Option, none, some, List, [], ◌∷◌, ◌++◌, any, str_eq, ltb, ◌==◌,
  if◌then◌else◌,
}
use briefed.Base.Dict.{Dict}
use briefed.Base.Result.{Result, ok, err}
use briefed.Redaction.{RedactionResult, Sanitizer}
use briefed.Llm.Budget.{BudgetExceeded, check_before_call, record_cost}
use briefed.Llm.Types.{
  Fields, PromptSpec, CallResult, ProviderError, Provider, PromptCallRecord, ok_row, fallback_row,
  error_row,
}
use briefed.Llm.Reidentify.{reidentify_payload}
use briefed.Llm.Attempts.{
  Env, Config, State, returned, raised, escaped, assertion, call_provider, fail,
}

-- `REIDENTIFY_FLOW_ALLOWLIST`
abbrev pub reidentify_flow_allowlist : List String
reidentify_flow_allowlist = []

-- What `__init__` keeps and no call changes.
pub record Client : Type 0 where
  pub primary : Provider
  pub fallbacks : List Provider
  pub config : Config
  pub sanitizer : Option Sanitizer

-- The arguments of a call, but for the schema; `logs` says whether `log_call` is given.
pub record Arguments : Type 0 where
  pub spec : PromptSpec
  pub rendered_prompt : String
  pub prompt_version_id : String
  pub email_id : Option String
  pub run_id : Option String
  pub logs : Bool
  pub sanitizer : Option Sanitizer
  pub reidentify : Bool
  pub flow : Option String

-- An entry of `errors`, whose text names the provider.
pub data Failure : Type 0 where
  provider_failed : String → ProviderError → Failure
  schema_mismatch : String → Failure

-- `LLMClientError` by cause, another exception of a provider, and the assertion at the end of
-- `_call_provider`.
pub data CallError : Type 0 where
  budget_exceeded : BudgetExceeded → CallError
  needs_sanitizer flow_not_allowed : CallError
  every_provider_failed : List Failure → CallError
  provider_exception assertion_failed : CallError

-- `ClientResponse`
pub record Response (Parsed : Type 0) : Type 0 where
  pub parsed : Parsed
  pub call_result : CallResult
  pub row : PromptCallRecord
  pub fallback_used : Bool
  pub redaction : Option RedactionResult

unfoldable pub active_sanitizer : Client → Arguments → Option Sanitizer
active_sanitizer c args = elim args.sanitizer [ some z ↦ some z | none ↦ c.sanitizer ]

-- The guards on `reidentify=True`.
unfoldable pub check_reidentify : Arguments → Option Sanitizer → Result CallError (Unit {0})
check_reidentify args active =
    if args.reidentify
    then elim active [
      | none ↦ err needs_sanitizer
      | some z ↦ elim args.flow [
        | none ↦ err flow_not_allowed
        | some f ↦ if any (str_eq f) reidentify_flow_allowlist then ok tt else err flow_not_allowed
      ]
    ]
    else ok tt

-- The sanitizer's pass over the prompt.
unfoldable pub redact : Arguments → Option Sanitizer → Option RedactionResult
redact args active = elim active [ none ↦ none | some z ↦ some (z.sanitize args.rendered_prompt) ]

unfoldable pub prompt_to_send : Arguments → Option RedactionResult → String
prompt_to_send args redaction = elim redaction [ none ↦ args.rendered_prompt | some r ↦ r.text ]

abbrev pub counts_of : Option RedactionResult → Option (Dict ℕ)
counts_of none = none
counts_of (some r) = some r.counts_by_kind

-- The row of a call that a provider answered.
unfoldable pub answer_row : Arguments → Option RedactionResult → ℕ → CallResult → PromptCallRecord
answer_row args redaction index r = record {
  prompt_version_id = args.prompt_version_id;
  email_id = args.email_id;
  run_id = args.run_id;
  model = r.model;
  tokens_in = r.tokens_in;
  tokens_out = r.tokens_out;
  tokens_cache_read = r.tokens_cache_read;
  tokens_cache_write = r.tokens_cache_write;
  cost_usd = r.cost_usd;
  latency_ms = r.latency_ms;
  status = if index == 0 then ok_row else fallback_row;
  provider = r.provider;
  redaction_counts = counts_of redaction;
}

-- The row of a call that no provider answered.
unfoldable pub failure_row : Client → Arguments → Option RedactionResult → PromptCallRecord
failure_row c args redaction = record {
  prompt_version_id = args.prompt_version_id;
  email_id = args.email_id;
  run_id = args.run_id;
  model = args.spec.model;
  tokens_in = 0;
  tokens_out = 0;
  tokens_cache_read = 0;
  tokens_cache_write = 0;
  cost_usd = 0;
  latency_ms = 0;
  status = error_row;
  provider = c.primary.name;
  redaction_counts = counts_of redaction;
}

-- `await log_call(row)`, where it is given.
abbrev pub log_row : Arguments → PromptCallRecord → State → State
log_row args row s = if args.logs then record s { rows = row ∷ s.rows } else s

module _ (env : Env) where
  -- `self._budget_guard.check_before_call()`
  unfoldable pub check_budget : State → Result BudgetExceeded (Unit {0}) × State
  unfolding check_before_call
  check_budget s = elim s.budget_guard [
    | none ↦ (ok tt, s)
    | some g ↦
        let (r, g') = check_before_call g (env.today s.step) in
        (r, record s { step = s.step + 1; budget_guard = some g' })
  ]

  -- `self._budget_guard.record(cost)`
  unfoldable pub charge : ℕ → State → State
  unfolding record_cost
  charge cost s = elim s.budget_guard [
    | none ↦ s
    | some g ↦ record s {
      step = s.step + 1;
      budget_guard = some (record_cost g cost (env.today s.step));
    }
  ]

module _ {Parsed : Type 0} (env : Env) (validate : Fields → Option Parsed) (c : Client)
    (args : Arguments) (redaction : Option RedactionResult) where
  -- The payload that is validated.
  unfoldable pub payload_of : CallResult → Fields
  unfolding reidentify_payload
  payload_of r = elim redaction [
    | none ↦ r.payload
    | some red ↦
        if args.reidentify then reidentify_payload r.payload red.reversal_map else r.payload
  ]

  -- The end of a call whose payload validated.
  unfoldable pub finish : ℕ → Parsed → CallResult → State → Response Parsed × State
  unfolding answer_row charge
  finish index parsed r s =
      let row = answer_row args redaction index r in
      (
        record {
          parsed = parsed;
          call_result = r;
          row = row;
          fallback_used = ltb 0 index;
          redaction = redaction;
        },
        charge env r.cost_usd (log_row args row s),
      )

  -- The `for index, provider in enumerate(chain)` loop, and the error row after it.
  unfoldable pub try_chain :
      List Provider → ℕ → List Failure → State → Result CallError (Response Parsed) × State
  try_chain [] index errors s =
      (err (every_provider_failed errors), log_row args (failure_row c args redaction) s)
  try_chain (p ∷ ps) index errors s =
      let (answer, s1) = call_provider env c.config args.spec (prompt_to_send args redaction) p s in
      elim answer [
        | assertion ↦ (err assertion_failed, s1)
        | escaped ↦ (err provider_exception, s1)
        | raised e ↦ try_chain ps (index + 1) (errors ++ provider_failed p.name e ∷ []) s1
        | returned r ↦ elim (validate (payload_of r)) [
          | none ↦
              try_chain ps (index + 1) (errors ++ schema_mismatch p.name ∷ []) (fail env p.name s1)
          | some parsed ↦ let (response, s2) = finish index parsed r s1 in (ok response, s2)
        ]
      ]

module _ {Parsed : Type 0} (env : Env) (validate : Fields → Option Parsed) (c : Client)
    (args : Arguments) where
  unfoldable pub call : State → Result CallError (Response Parsed) × State
  call s =
      let (budget, s1) = check_budget env s in
      let active = active_sanitizer c args in
      elim budget [
        | err e ↦ (err (budget_exceeded e), s1)
        | ok _ ↦ elim (check_reidentify args active) [
          | err e ↦ (err e, s1)
          | ok _ ↦
              try_chain env validate c args (redact args active) (c.primary ∷ c.fallbacks) 0 [] s1
        ]
      ]
