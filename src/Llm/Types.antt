-- ===== src/Llm/Types.antt =====
-- backend/app/llm/providers/base.py and the row type of backend/app/llm/client.py. Costs are whole
-- micro-dollars, temperatures thousandths; a JSON number is kept as its literal.
use briefed.Base.{ℕ, String, Bool, false, Option}
use briefed.Base.Dict.{Dict}
use briefed.Base.Result.{Result}

mutual
  pub data Json : Type 0 where
    null : Json
    boolean : Bool → Json
    number : String → Json
    text : String → Json
    array : Items → Json
    object : Fields → Json

  pub data Items : Type 0 where
    no_items : Items
    item : Json → Items → Items

  pub data Fields : Type 0 where
    no_fields : Fields
    field : String → Json → Fields → Fields

pub record PromptSpec : Type 0 where
  pub name : String
  pub version : ℕ
  pub content : String
  pub system : String
  pub model : String
  pub temperature : ℕ
  pub max_tokens : ℕ
  pub cache_tier : String
  pub schema_ref : String
  pub extras : Fields

-- `LLMCallResult`
pub record CallResult : Type 0 where
  pub payload : Fields
  pub tokens_in : ℕ
  pub tokens_out : ℕ
  pub tokens_cache_read : ℕ
  pub tokens_cache_write : ℕ
  pub cost_usd : ℕ
  pub latency_ms : ℕ
  pub provider : String
  pub model : String

-- `LLMProviderError`, by where it is raised: the client for an open circuit or an exhausted cap,
-- both not retryable, or the adapter, which says whether it is.
pub data ProviderError : Type 0 where
  circuit_open cap_exhausted : ProviderError
  adapter : Bool → ProviderError

abbrev pub retryable : ProviderError → Bool
retryable (adapter r) = r
retryable _ = false

-- The adapter's own `LLMProviderError`.
pub record AdapterError : Type 0 where
  pub is_retryable : Bool

-- What a provider raises: its adapter's error, or another exception, such as that of `response.json()`
-- on a body that is no JSON.
pub data ProviderException : Type 0 where
  llm_provider_error : AdapterError → ProviderException
  other_exception : ProviderException

-- The protocol: the answer may differ at each step of the world.
pub record Provider : Type 0 where
  pub name : String
  pub complete_json : PromptSpec → String → ℕ → Result ProviderException CallResult

pub data CallStatus : Type 0 where
  ok_row fallback_row error_row skipped_row : CallStatus

pub record PromptCallRecord : Type 0 where
  pub prompt_version_id : String
  pub email_id : Option String
  pub run_id : Option String
  pub model : String
  pub tokens_in : ℕ
  pub tokens_out : ℕ
  pub tokens_cache_read : ℕ
  pub tokens_cache_write : ℕ
  pub cost_usd : ℕ
  pub latency_ms : ℕ
  pub status : CallStatus
  pub provider : String
  pub redaction_counts : Option (Dict ℕ)
