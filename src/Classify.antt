-- ===== src/Classify.antt =====
-- `classify_one` of backend/app/services/classification/pipeline.py, for an engine that is loaded. Rows
-- hold valid addresses and headers. What the client hands to `log_call` is inserted when the call is
-- over.
mod Rows
pub mod Ends
pub mod Total
pub mod Traffic
mod Tests
pub mod Repository
pub mod Types
pub mod Writes
use briefed.Base.{
  ℕ, ◌+◌, ◌*◌, ◌/◌, ◌%◌, String, List, [], ◌∷◌, Bool, true, false, not, ◌&&◌, ◌||◌, Option, none,
  some, str_eq, ltb, leb, ◌==◌, if◌then◌else◌, map,
}
use Prim.Native.String.{◌++◌}
use mathlib.Core.List.{◌++◌ as append}
use briefed.Base.Dict.{Dict}
use briefed.Base.Result.{Result, ok, err}
use briefed.Mail.{EmailMessage}
use briefed.Tables.{Email, ConnectedAccount, Classification, PromptCallLog, Db}
use briefed.Envelope.{Bytes, CryptoError, EnvelopeCipher, decrypt_excerpt}
use briefed.Rubric.Clauses.{Python}
use briefed.Rubric.Engine.{RuleDecision, RuleEngine, EngineError, evaluate}
use briefed.Llm.Types.{
  Json, Items, Fields, boolean, number, text, array, no_items, item, no_fields, field, PromptSpec,
  PromptCallRecord, CallStatus, ok_row, fallback_row, error_row, skipped_row,
}
use briefed.Llm.Attempts
use briefed.Llm.Attempts.{Env}
use briefed.Llm.Client.{Client, Arguments, CallError, Response, assertion_failed, call}
use briefed.Llm.Client
use briefed.Llm.Prompt.{render_prompt}
use briefed.Classify.Repository.{ClassificationWrite, ClassificationsRepo, upsert}
use briefed.Classify.Types.{
  TriageDecision, Runtime, ClassifyInputs, ClassifyOutcome, ClassifyError, email_not_found,
  account_not_found, missing_variable, not_utf8, provider_exception, client_assertion, rule_error,
  crypto_error, State, Outcome, low_confidence_threshold, needs_review_threshold, find_email,
  find_account, find_classification,
}
use briefed.Classify.Writes.{
  to_decimal, rule_write, rule_outcome, review_write, review_outcome, source_of, model_reasons,
  model_write, model_outcome, strings,
}

-- `_protected_user_override`
unfoldable pub protected_user_override : String → Db → Option ClassifyOutcome
protected_user_override email_id db = elim (find_classification email_id db.classifications) [
  | none ↦ none
  | some c ↦
      if not (str_eq c.model "user_override")
      then none
      else some (record {
        email_id = email_id;
        label = c.label;
        score = c.score * 1000;
        decision_source = c.decision_source;
        tokens_in = 0;
        tokens_out = 0;
        cost_usd = 0;
        llm_used = false;
      })
]

-- `_row_to_boundary`
unfoldable pub row_to_boundary : Email → EmailMessage
row_to_boundary row = record {
  message_id = row.gmail_message_id;
  content_hash = row.content_hash;
  from_email = row.from_addr;
  subject = row.subject;
  snippet = row.snippet;
  labels = row.labels;
  list_unsubscribe = row.list_unsubscribe;
}

-- `_rubric_summary`
unfoldable pub rubric_summary : Runtime → Option RuleDecision → String
rubric_summary runtime none = "no rubric match"
rubric_summary runtime (some d) =
    "rubric matched "
    ++ d.label
    ++ " (confidence "
    ++ runtime.two_decimals d.confidence
    ++ "); treat as advisory."

-- `_excerpt_for`
unfoldable pub excerpt_for : Runtime → ClassifyInputs → Email → Result ClassifyError String
excerpt_for runtime inputs row =
    elim (decrypt_excerpt inputs.content_cipher row.plain_text_excerpt_ct row.id inputs.user_id) [
      | err e ↦ ok row.snippet
      | ok bytes ↦ elim (runtime.decode bytes) [
        | none ↦ err not_utf8
        | some excerpt ↦ ok (if str_eq excerpt "" then row.snippet else excerpt)
      ]
    ]

unfoldable pub skipped_call : ClassifyInputs → Option String → PromptCallRecord
skipped_call inputs run_id = record {
  prompt_version_id = inputs.prompt_version_id;
  email_id = some inputs.email_id;
  run_id = run_id;
  model = "";
  tokens_in = 0;
  tokens_out = 0;
  tokens_cache_read = 0;
  tokens_cache_write = 0;
  cost_usd = 0;
  latency_ms = 0;
  status = skipped_row;
  provider = "rule";
  redaction_counts = none;
}

unfoldable pub status_text : CallStatus → String
status_text ok_row = "ok"
status_text fallback_row = "fallback"
status_text error_row = "error"
status_text skipped_row = "skipped"

-- The row of `_persist_call_log`
unfoldable pub call_log : Runtime → Option String → PromptCallRecord → PromptCallLog
unfolding status_text
call_log runtime run_id call_record = record {
  prompt_name = runtime.prompt_name call_record.prompt_version_id;
  email_id = call_record.email_id;
  run_id = run_id;
  status = status_text call_record.status;
  cost_usd = call_record.cost_usd;
}

-- The rows inserted into `prompt_call_log`.
abbrev pub log_calls : Runtime → Option String → List PromptCallRecord → Db → Db
log_calls runtime run_id calls db = record db {
  prompt_calls = append db.prompt_calls (map (call_log runtime run_id) calls);
}

-- `_log_skipped`
unfoldable pub log_skipped : Runtime → ClassifyInputs → Option String → State → State
unfolding skipped_call call_log
log_skipped runtime inputs run_id s = record s {
  db = log_calls runtime run_id (skipped_call inputs run_id ∷ []) s.db;
}

-- `await inputs.repo.upsert(...)`, then the return.
unfoldable pub persist : ClassifyInputs → ClassificationWrite → ClassifyOutcome → State → Outcome
unfolding upsert
persist inputs w outcome s =
    let (stored, db) = upsert inputs.repo w s.db in
    (elim stored [ err e ↦ err (crypto_error e) | ok _ ↦ ok outcome ], record s { db = db })

abbrev pub call_arguments : ClassifyInputs → Option String → String → Arguments
call_arguments inputs run_id rendered = record {
  spec = inputs.prompt;
  rendered_prompt = rendered;
  prompt_version_id = inputs.prompt_version_id;
  email_id = some inputs.email_id;
  run_id = run_id;
  logs = true;
  sanitizer = none;
  reidentify = false;
  flow = none;
}

-- What follows the call of the client.
unfoldable pub persist_answer :
    Runtime
    → ClassifyInputs
    → Option RuleDecision
    → Result CallError (Response TriageDecision)
    → State
    → Outcome
unfolding persist model_write model_outcome review_write review_outcome
persist_answer runtime inputs decision (ok response) s =
    persist inputs (model_write runtime inputs decision response)
      (model_outcome inputs decision response) s
persist_answer runtime inputs decision (err Client.provider_exception) s =
    (err provider_exception, s)
persist_answer runtime inputs decision (err assertion_failed) s = (err client_assertion, s)
persist_answer runtime inputs decision (err e) s =
    persist inputs (review_write inputs (runtime.error_text e)) (review_outcome inputs) s

-- The variables of the prompt
unfoldable pub prompt_variables : Runtime → Option RuleDecision → Email → String → Dict String
unfolding rubric_summary
prompt_variables runtime decision row excerpt =
    ("rubric_summary", rubric_summary runtime decision)
    ∷ ("from_addr", row.from_addr)
    ∷ ("subject", row.subject)
    ∷ ("plain_text_excerpt", excerpt)
    ∷ []

-- The consultation of the model.
unfoldable pub ask_model :
    Runtime → ClassifyInputs → Option String → Option RuleDecision → Email → State → Outcome
unfolding excerpt_for prompt_variables persist_answer call_log
ask_model runtime inputs run_id decision row s = elim (excerpt_for runtime inputs row) [
  | err e ↦ (err e, s)
  | ok excerpt ↦
      elim (render_prompt runtime.set_order inputs.prompt
        (prompt_variables runtime decision row excerpt)) [
          | none ↦ (err missing_variable, s)
          | some rendered ↦
              let (answer, llm) =
                call runtime.env runtime.validate inputs.llm (call_arguments inputs run_id rendered)
                  (record s.llm { rows = [] }) in
              persist_answer runtime inputs decision answer
                (record { db = log_calls runtime run_id llm.rows s.db; llm = llm })
        ]
]

-- The decision of the rules
unfoldable pub decide_by_rules :
    Runtime → ClassifyInputs → Option String → Email → Option RuleDecision → State → Outcome
unfolding ask_model persist log_skipped rule_write rule_outcome
decide_by_rules runtime inputs run_id row none s = ask_model runtime inputs run_id none row s
decide_by_rules runtime inputs run_id row (some d) s =
    if leb low_confidence_threshold d.confidence
    then persist inputs (rule_write runtime inputs d) (rule_outcome inputs d)
        (log_skipped runtime inputs run_id s)
    else ask_model runtime inputs run_id (some d) row s

unfoldable pub classify_row :
    Runtime → ClassifyInputs → RuleEngine → Option String → Email → State → Outcome
unfolding protected_user_override row_to_boundary decide_by_rules
classify_row runtime inputs engine run_id row s = elim (find_account row.account_id s.db.accounts) [
  | none ↦ (err account_not_found, s)
  | some account ↦ elim (protected_user_override inputs.email_id s.db) [
    | some protected ↦ (ok protected, s)
    | none ↦ elim (evaluate runtime.python engine (row_to_boundary row)) [
      | err e ↦ (err (rule_error e), s)
      | ok decision ↦ decide_by_rules runtime inputs run_id row decision s
    ]
  ]
]

unfoldable pub classify_one :
    Runtime → ClassifyInputs → RuleEngine → Option String → State → Outcome
unfolding classify_row
classify_one runtime inputs engine run_id s = elim (find_email inputs.email_id s.db.emails) [
  | none ↦ (err email_not_found, s)
  | some row ↦ classify_row runtime inputs engine run_id row s
]
