-- ===== src/Classify/Writes.antt =====
-- The rows and outcomes that backend/app/services/classification/pipeline.py writes and returns.
use briefed.Base.{
  ℕ, ◌+◌, ◌*◌, ◌/◌, ◌%◌, String, List, [], ◌∷◌, true, false, ◌&&◌, ◌||◌, Option, none, some, ltb,
  ◌==◌, if◌then◌else◌,
}
use briefed.Rubric.Engine.{RuleDecision}
use briefed.Llm.Types.{
  Items, Fields, boolean, number, text, array, no_items, item, no_fields, field,
}
use briefed.Llm.Client.{Response}
use briefed.Classify.Repository.{ClassificationWrite}
use briefed.Classify.Types.{
  TriageDecision, Runtime, ClassifyInputs, ClassifyOutcome, needs_review_threshold,
}

-- `_to_decimal`, from millionths to thousandths; a half goes to the even neighbour.
unfoldable pub to_decimal : ℕ → ℕ
to_decimal v =
    let q = v / 1000 in
    let r = v % 1000 in if ltb 500 r || ((r == 500) && (q % 2 == 1)) then q + 1 else q

abbrev pub strings : List String → Items
strings [] = no_items
strings (s ∷ ss) = item (text s) (strings ss)

-- The write and the outcome of `_persist_rule_only`
unfoldable pub rule_write : Runtime → ClassifyInputs → RuleDecision → ClassificationWrite
unfolding to_decimal
rule_write runtime inputs d = record {
  email_id = inputs.email_id;
  label = d.label;
  score = to_decimal (d.confidence * 1000);
  rubric_version = d.rubric_version;
  prompt_version_id = none;
  decision_source = "rule";
  model = "";
  tokens_in = 0;
  tokens_out = 0;
  is_newsletter = d.is_newsletter;
  reasons = field "source" (text "rule") (
      field "rule_reasons" (array (strings d.reasons)) (
        field "rule_label" (text d.label) (
          field "rule_confidence" (number (runtime.float_text (d.confidence * 1000))) (
            field "rule_version" (number (runtime.int_text d.rubric_version))
              (field "is_newsletter" (boolean d.is_newsletter) no_fields)))));
  user_id = inputs.user_id;
  needs_review = false;
}

unfoldable pub rule_outcome : ClassifyInputs → RuleDecision → ClassifyOutcome
rule_outcome inputs d = record {
  email_id = inputs.email_id;
  label = d.label;
  score = d.confidence * 1000;
  decision_source = "rule";
  tokens_in = 0;
  tokens_out = 0;
  cost_usd = 0;
  llm_used = false;
}

-- The write and the outcome of `_persist_needs_review`
unfoldable pub review_write : ClassifyInputs → String → ClassificationWrite
review_write inputs reason = record {
  email_id = inputs.email_id;
  label = "ignore";
  score = 0;
  rubric_version = 0;
  prompt_version_id = none;
  decision_source = "model";
  model = "";
  tokens_in = 0;
  tokens_out = 0;
  is_newsletter = false;
  reasons =
      field "source" (text "error")
        (field "error" (text reason) (field "needs_review" (boolean true) no_fields));
  user_id = inputs.user_id;
  needs_review = true;
}

unfoldable pub review_outcome : ClassifyInputs → ClassifyOutcome
review_outcome inputs = record {
  email_id = inputs.email_id;
  label = "ignore";
  score = 0;
  decision_source = "model";
  tokens_in = 0;
  tokens_out = 0;
  cost_usd = 0;
  llm_used = false;
}

abbrev pub source_of : Option RuleDecision → String
source_of none = "model"
source_of (some d) = "hybrid"

-- `reasons_payload` of an answer
unfoldable pub model_reasons : Runtime → Option RuleDecision → TriageDecision → Fields
model_reasons runtime decision triage =
    let rules : Fields = elim decision [
      | none ↦ no_fields
      | some d ↦ field "rule_reasons" (array (strings d.reasons)) (
          field "rule_label" (text d.label) (
            field "rule_confidence" (number (runtime.float_text (d.confidence * 1000)))
              (field "rule_version" (number (runtime.int_text d.rubric_version)) no_fields)))
    ] in
    field "source" (text (source_of decision)) (
      field "model_reasons" (text triage.reasons_short) (
        field "model_confidence" (number (runtime.float_text triage.confidence)) (
          field "model_category" (text triage.category) (
            field "needs_review" (boolean (ltb triage.confidence needs_review_threshold))
              (field "is_newsletter" (boolean triage.is_newsletter) rules)))))

-- The write and the outcome of an answer
unfoldable pub model_write :
    Runtime → ClassifyInputs → Option RuleDecision → Response TriageDecision → ClassificationWrite
unfolding to_decimal model_reasons
model_write runtime inputs decision response = record {
  email_id = inputs.email_id;
  label = response.parsed.category;
  score = to_decimal response.parsed.confidence;
  rubric_version = elim decision [ none ↦ 0 | some d ↦ d.rubric_version ];
  prompt_version_id = some inputs.prompt_version_id;
  decision_source = source_of decision;
  model = response.call_result.model;
  tokens_in = response.call_result.tokens_in;
  tokens_out = response.call_result.tokens_out;
  is_newsletter = response.parsed.is_newsletter;
  reasons = model_reasons runtime decision response.parsed;
  user_id = inputs.user_id;
  needs_review = ltb response.parsed.confidence needs_review_threshold;
}

unfoldable pub model_outcome :
    ClassifyInputs → Option RuleDecision → Response TriageDecision → ClassifyOutcome
model_outcome inputs decision response = record {
  email_id = inputs.email_id;
  label = response.parsed.category;
  score = response.parsed.confidence;
  decision_source = source_of decision;
  tokens_in = response.call_result.tokens_in;
  tokens_out = response.call_result.tokens_out;
  cost_usd = response.call_result.cost_usd;
  llm_used = true;
}
