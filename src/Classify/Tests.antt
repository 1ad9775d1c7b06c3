-- ===== src/Classify/Tests.antt =====
-- An email that no rule matches, which a provider labels, and one that the user has labelled.
use briefed.Base.{◌≡◌, refl, String, [], ◌∷◌, true, false, none, some, if◌then◌else◌}
use briefed.Base.Result.{ok, err}
use briefed.Redaction.{Sanitizer}
use briefed.Tables.{Email, Classification}
use briefed.Rubric.Clauses.{Python}
use briefed.Rubric.Engine.{RuleEngine, evaluate, rule_matches, seed_matches, decide}
use briefed.Llm.Types.{no_fields, field, text, PromptSpec, Provider}
use briefed.Llm.Attempts.{
  default_config, call_provider, is_circuit_open, is_capped, attempt_loop, send, succeed, fail,
}
use briefed.Envelope.{decrypt_excerpt}
use briefed.Llm.Client.{
  Client, call, check_budget, check_reidentify, try_chain, payload_of, redact, finish, charge,
  answer_row, active_sanitizer, prompt_to_send,
}
use briefed.Llm.Prompt.{render_prompt}
use briefed.Classify.Types.{Runtime, ClassifyInputs, State, Outcome}
use briefed.Classify.Writes.{to_decimal}
use briefed.Classify.Traffic.{Sent, is_settled, classify_one-Sent}
use briefed.Classify.{classify_one}

abbrev python : Python
python = record {
  str_of_number = λ n. "1";
  str_of_leaves = λ ls. "[]";
  str_of_fields = λ fs. "{}";
  search = λ pattern subject. none;
  float = λ l. none;
}

abbrev runtime : Runtime
runtime = record {
  python = python;
  env = record { monotonic = λ step. step; today = λ step. 20; uniform = λ high step. high };
  validate = λ fields. elim fields [
    | no_fields ↦ none
    | field k v fs ↦ some (record {
      category = "must_read";
      confidence = 549600;
      reasons_short = "asks";
      is_newsletter = false;
    })
  ];
  set_order = λ names. names;
  float_text = λ n. "0.5496";
  two_decimals = λ n. "0.55";
  int_text = λ n. "0";
  error_text = λ e. "failed";
  prompt_name = λ version. some "triage";
  decode = λ bytes. some "";
}

abbrev provider : Provider
provider = record {
  name = "primary";
  complete_json = λ spec prompt step. ok (record {
    payload = field "category" (text "must_read") no_fields;
    tokens_in = 900;
    tokens_out = 40;
    tokens_cache_read = 0;
    tokens_cache_write = 0;
    cost_usd = 1200;
    latency_ms = 800;
    provider = "primary";
    model = "small";
  });
}

abbrev masking : Sanitizer
masking = record {
  sanitize = λ t. record { text = "masked"; reversal_map = []; counts_by_kind = [] };
}

abbrev client : Client
client = record {
  primary = provider;
  fallbacks = [];
  config = default_config;
  sanitizer = some masking;
}

abbrev prompt : PromptSpec
prompt = record {
  name = "triage";
  version = 1;
  content = "{{from_addr}}: {{subject}}";
  system = "";
  model = "small";
  temperature = 0;
  max_tokens = 512;
  cache_tier = "none";
  schema_ref = "TriageDecision";
  extras = no_fields;
}

abbrev inputs : String → ClassifyInputs
inputs email_id = record {
  email_id = email_id;
  user_id = "u1";
  prompt = prompt;
  llm = client;
  repo = record { cipher = none; dumps = λ fields. 123 ∷ 125 ∷ []; dek = []; nonce = [] };
  prompt_version_id = "v1";
  content_cipher = none;
}

abbrev engine : RuleEngine
engine = record { user_rules = []; seed_waste = [] }

abbrev email : String → Email
email id = record {
  id = id;
  account_id = "a1";
  gmail_message_id = id;
  internal_date = 10;
  from_addr = "ana@x.org";
  subject = "Lunch?";
  snippet = "Are you";
  labels = "UNREAD" ∷ [];
  list_unsubscribe = none;
  content_hash = "h";
  plain_text_excerpt_ct = none;
}

abbrev chosen : Classification
chosen = record {
  email_id = "e2";
  label = "good_to_read";
  score = 1000;
  rubric_version = 0;
  prompt_version_id = none;
  decision_source = "rule";
  model = "user_override";
  tokens_in = 0;
  tokens_out = 0;
  is_newsletter = false;
  needs_review = false;
  reasons_ct = none;
}

abbrev state : State
state = record {
  db = record {
    users = [];
    accounts =
        record { id = "a1"; user_id = "u1"; status = "active"; auto_scan_enabled = true } ∷ [];
    runs = [];
    emails = email "e1" ∷ email "e2" ∷ [];
    run_emails = [];
    classifications = chosen ∷ [];
    summaries = [];
    clusters = [];
    prompt_calls = [];
    hygiene_claims = [];
    digest_claims = [];
  };
  llm = record {
    step = 0;
    breakers = [];
    rate_caps = [];
    budget_guard = none;
    requests = [];
    delays = [];
    rows = [];
  };
}

-- The score is rounded to three places, and the row is up for review: 0.5496 is below 0.55.
rounded : to_decimal 549600 ≡ 550
unfolding to_decimal
rounded = refl

half_to_even : (to_decimal 12500 ≡ 12) × (to_decimal 13500 ≡ 14)
unfolding to_decimal
half_to_even = (refl, refl)

classify_one-Sent_example :
    Sent runtime
      (inputs "e1")
      engine
      none
      masking
      refl
      state
      (if is_settled runtime (inputs "e1") engine state.db (email "e1") then 0 else 4)
      (classify_one runtime (inputs "e1") engine none state)
classify_one-Sent_example =
    classify_one-Sent runtime (inputs "e1") engine none masking refl state (email "e1") refl

abbrev label_of : Outcome → String
label_of (ok outcome, t) = outcome.label
label_of (err e, t) = "error"

labelled : label_of (classify_one runtime (inputs "e1") engine none state) ≡ "must_read"
unfolding classify_one evaluate rule_matches decide seed_matches decrypt_excerpt render_prompt call
    check_budget check_reidentify try_chain call_provider is_circuit_open is_capped attempt_loop
    send payload_of redact finish charge answer_row succeed fail active_sanitizer prompt_to_send
labelled = refl
