-- ===== src/Unsubscribe/Rank.antt =====
-- `rank_senders` of backend/app/services/unsubscribe/aggregator.py, over the statistics, the client and
-- the table of suggestions. Confidences of floats are millionths. The rows of `prompt_call_log` are
-- those that the client's state holds; where the call raises, the caller rolls the tables back.
mod Single
mod Rows
mod Loop
pub mod Table
pub mod Sent
use Prim.Native.String.{◌++◌}
use briefed.Base.{
  ℕ, ◌+◌, ◌/◌, min, String, List, [], ◌∷◌, Bool, true, false, not, Option, none, some, map, ltb,
  ◌==◌, if◌then◌else◌, is_some, length,
}
use briefed.Base.Dict.{Dict}
use briefed.Base.Result.{Result, ok, err}
use briefed.Tables.{Email, ConnectedAccount, Classification}
use briefed.Classify.Types.{find_account}
use briefed.Rubric.Texts.{Text}
use briefed.Envelope.{Bytes, CryptoError}
use briefed.Llm.Types.{Fields, PromptSpec}
use briefed.Llm.Attempts
use briefed.Llm.Attempts.{Env}
use briefed.Llm.Client.{Client, Arguments, CallError, Response, assertion_failed, call}
use briefed.Llm.Client
use briefed.Llm.Prompt.{render_prompt}
use briefed.Unsubscribe.Senders.{
  SenderStats, CriteriaScore, labels, score_sender, round_half_even, aggregate_sender_stats,
}
use briefed.Unsubscribe.Suggestions.{
  UnsubscribeSuggestion, UnsubscribeSuggestionWrite, UnsubscribeSuggestionsRepo, upsert,
}

-- `UnsubscribeDecision` of llm/schemas.py, with the rationale as UTF-8 bytes.
pub record UnsubscribeDecision : Type 0 where
  pub should_recommend : Bool
  pub confidence : ℕ
  pub category : String
  pub rationale : Bytes

-- What Python, pydantic and the database do: the validation, texts of numbers, the encoding, the order
-- of a set, and the order of addresses.
pub record Runtime : Type 0 where
  pub env : Env
  pub validate : Fields → Option UnsubscribeDecision
  pub set_order : List String → List String
  pub text_of : Text → String
  pub int_text : ℕ → String
  pub two_decimals : ℕ → String
  pub encode : String → Bytes
  pub collate : String → String → Bool

pub record RankInputs : Type 0 where
  pub user_id : String
  pub account_id : String
  pub llm : Client
  pub prompt : PromptSpec
  pub prompt_version_id : String
  pub repo : UnsubscribeSuggestionsRepo
  pub run_id : Option String

pub record RankOutcome : Type 0 where
  pub candidates : ℕ
  pub rule_recommendations : ℕ
  pub model_recommendations : ℕ
  pub skipped : ℕ
  pub llm_errors : ℕ

pub data RankError : Type 0 where
  account_not_found missing_variable provider_exception client_assertion : RankError
  crypto_error : CryptoError → RankError

pub record State : Type 0 where
  pub suggestions : List UnsubscribeSuggestion
  pub llm : Attempts.State

-- `_RULE_ONLY_CONFIDENCE`, and `_POLICY_GATE_MIN` in millionths
abbrev pub rule_only_confidence : ℕ
rule_only_confidence = 900

abbrev pub policy_gate_min : ℕ
policy_gate_min = 200000

-- `sep.join(texts)`
unfoldable pub join : String → List String → String
join sep [] = ""
join sep (t ∷ []) = t
join sep (t ∷ u ∷ ts) = t ++ sep ++ join sep (u ∷ ts)

-- `_quantize` of millionths
unfoldable pub quantize : ℕ → ℕ
unfolding round_half_even
quantize millionths = round_half_even (min millionths 1000000) 1000

-- `_rule_rationale`
unfoldable pub rule_rationale : Runtime → SenderStats → CriteriaScore → String
unfolding labels join
rule_rationale runtime stats score =
    runtime.int_text stats.frequency_30d
    ++ " emails in the last 30 days, "
    ++ runtime.int_text (stats.engagement_score / 10)
    ++ "% engagement, "
    ++ runtime.int_text (stats.waste_rate / 10)
    ++ "% wasted — all three unsubscribe criteria triggered ("
    ++ join ", " (labels score)
    ++ ")."

-- `_format_subjects`
unfoldable pub format_subjects : Runtime → List Text → String
unfolding join
format_subjects runtime [] = "(no subjects in window)"
format_subjects runtime (s ∷ subjects) =
    join "\n" (map (λ (t : Text). "- \"" ++ runtime.text_of t ++ "\"") (s ∷ subjects))

abbrev pub or_none : List String → String
or_none [] = "none"
or_none (t ∷ ts) = join "," (t ∷ ts)

unfoldable pub borderline_variables : Runtime → SenderStats → CriteriaScore → Dict String
unfolding labels format_subjects join
borderline_variables runtime stats score =
    ("sender_email", runtime.text_of stats.sender_email)
    ∷ ("sender_domain", runtime.text_of stats.sender_domain)
    ∷ ("frequency_30d", runtime.int_text stats.frequency_30d)
    ∷ ("engagement_score", runtime.two_decimals stats.engagement_score)
    ∷ ("waste_rate", runtime.two_decimals stats.waste_rate)
    ∷ ("has_list_unsubscribe", if is_some stats.list_unsubscribe then "true" else "false")
    ∷ ("criteria_hit", or_none (labels score))
    ∷ ("subject_samples", format_subjects runtime stats.recent_subjects)
    ∷ []

abbrev pub call_arguments : RankInputs → String → Arguments
call_arguments inputs rendered = record {
  spec = inputs.prompt;
  rendered_prompt = rendered;
  prompt_version_id = inputs.prompt_version_id;
  email_id = none;
  run_id = inputs.run_id;
  logs = true;
  sanitizer = none;
  reidentify = false;
  flow = none;
}

-- The payload of `_persist` for the rules, and for an answer of the model.
unfoldable pub rule_write :
    Runtime → RankInputs → SenderStats → CriteriaScore → UnsubscribeSuggestionWrite
unfolding rule_rationale
rule_write runtime inputs stats score = record {
  account_id = inputs.account_id;
  user_id = inputs.user_id;
  sender_domain = stats.sender_domain;
  sender_email = stats.sender_email;
  frequency_30d = stats.frequency_30d;
  engagement_score = stats.engagement_score;
  waste_rate = stats.waste_rate;
  list_unsubscribe = stats.list_unsubscribe;
  confidence = rule_only_confidence;
  decision_source = "rule";
  rationale = runtime.encode (rule_rationale runtime stats score);
  prompt_version_id = none;
  model = "";
  tokens_in = 0;
  tokens_out = 0;
  last_email_at = stats.last_email_at;
  recent_subjects = stats.recent_subjects;
}

-- The confidence of an answer, which is capped where the model vetoes.
unfoldable pub gated_confidence : UnsubscribeDecision → ℕ
unfolding quantize
gated_confidence d =
    quantize (if d.should_recommend then d.confidence else min d.confidence policy_gate_min)

unfoldable pub model_write :
    RankInputs → SenderStats → Response UnsubscribeDecision → UnsubscribeSuggestionWrite
unfolding gated_confidence
model_write inputs stats response = record {
  account_id = inputs.account_id;
  user_id = inputs.user_id;
  sender_domain = stats.sender_domain;
  sender_email = stats.sender_email;
  frequency_30d = stats.frequency_30d;
  engagement_score = stats.engagement_score;
  waste_rate = stats.waste_rate;
  list_unsubscribe = stats.list_unsubscribe;
  confidence = gated_confidence response.parsed;
  decision_source = "model";
  rationale = response.parsed.rationale;
  prompt_version_id = some inputs.prompt_version_id;
  model = response.call_result.model;
  tokens_in = response.call_result.tokens_in;
  tokens_out = response.call_result.tokens_out;
  last_email_at = stats.last_email_at;
  recent_subjects = stats.recent_subjects;
}

-- `_persist`
unfoldable pub persist :
    RankInputs
    → UnsubscribeSuggestionWrite
    → RankOutcome
    → State
    → Result RankError RankOutcome × State
unfolding upsert
persist inputs w counted s = elim (upsert inputs.repo w s.suggestions) [
  | err e ↦ (err (crypto_error e), s)
  | ok rows ↦ (ok counted, record s { suggestions = rows })
]

-- What follows the call of the client.
unfoldable pub persist_answer :
    RankInputs
    → SenderStats
    → RankOutcome
    → Result CallError (Response UnsubscribeDecision)
    → State
    → Result RankError RankOutcome × State
unfolding persist model_write
persist_answer inputs stats counts (ok response) s =
    persist inputs (model_write inputs stats response)
      (record counts { model_recommendations = counts.model_recommendations + 1 }) s
persist_answer inputs stats counts (err Client.provider_exception) s = (err provider_exception, s)
persist_answer inputs stats counts (err assertion_failed) s = (err client_assertion, s)
persist_answer inputs stats counts (err e) s =
    (ok (record counts { llm_errors = counts.llm_errors + 1 }), s)

-- `_call_borderline_llm`, and what the loop does with its outcome.
unfoldable pub ask_model :
    Runtime
    → RankInputs
    → SenderStats
    → CriteriaScore
    → RankOutcome
    → State
    → Result RankError RankOutcome × State
unfolding borderline_variables persist_answer
ask_model runtime inputs stats score counts s =
    elim (render_prompt runtime.set_order inputs.prompt
      (borderline_variables runtime stats score)) [
        | none ↦ (err missing_variable, s)
        | some rendered ↦
            let (answer, llm) =
              call runtime.env runtime.validate inputs.llm (call_arguments inputs rendered) s.llm in
            persist_answer inputs stats counts answer (record s { llm = llm })
      ]

-- The body of the loop.
unfoldable pub rank_sender :
    Runtime → RankInputs → SenderStats → RankOutcome → State → Result RankError RankOutcome × State
unfolding score_sender ask_model persist rule_write
rank_sender runtime inputs stats counts s =
    let score = score_sender stats in
    if ltb score.hit_count 2
    then (ok (record counts { skipped = counts.skipped + 1 }), s)
    else if score.hit_count == 3
    then persist inputs (rule_write runtime inputs stats score)
        (record counts { rule_recommendations = counts.rule_recommendations + 1 }) s
    else ask_model runtime inputs stats score counts s

unfoldable pub rank_all :
    Runtime
    → RankInputs
    → List SenderStats
    → RankOutcome
    → State
    → Result RankError RankOutcome × State
unfolding rank_sender
rank_all runtime inputs [] counts s = (ok counts, s)
rank_all runtime inputs (t ∷ stats) counts s =
    let (r, s1) = rank_sender runtime inputs t counts s in
    elim r [ err e ↦ (err e, s1) | ok counts1 ↦ rank_all runtime inputs stats counts1 s1 ]

unfoldable pub rank_senders :
    Runtime
    → RankInputs
    → ℕ
    → List ConnectedAccount
    → List Email
    → List Classification
    → State
    → Result RankError RankOutcome × State
unfolding rank_all aggregate_sender_stats
rank_senders runtime inputs now accounts emails classifications s =
    elim (find_account inputs.account_id accounts) [
      | none ↦ (err account_not_found, s)
      | some account ↦
          let stats =
            aggregate_sender_stats runtime.collate inputs.account_id now emails classifications in
          rank_all runtime inputs stats
            (record {
              candidates = length stats;
              rule_recommendations = 0;
              model_recommendations = 0;
              skipped = 0;
              llm_errors = 0;
            })
            s
    ]
