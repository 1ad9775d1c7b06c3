-- ===== src/Unsubscribe/RankTests.antt =====
-- A shop whose mails are all waste, which the user dismissed, and a list with mails worth reading.
use briefed.Base.{◌≡◌, refl, String, List, [], ◌∷◌, true, false, none, some, map, ℕ, Bool}
use briefed.Base.Result.{ok}
use briefed.Redaction.{Sanitizer}
use briefed.Tables.{Email, ConnectedAccount, Classification}
use briefed.Schedule.Slot.{codes}
use briefed.Llm.Types.{no_fields, field, text, PromptSpec, Provider}
use briefed.Llm.Attempts.{
  default_config, call_provider, is_circuit_open, is_capped, attempt_loop, send, succeed, fail,
}
use briefed.Llm.Client.{
  call, check_budget, check_reidentify, try_chain, payload_of, redact, finish, charge, answer_row,
  active_sanitizer, prompt_to_send,
}
use briefed.Llm.Prompt.{render_prompt}
use briefed.Unsubscribe.Senders.{
  SenderStats, email_window, order_rows, aggregate_sender_stats, ratio,
}
use briefed.Unsubscribe.Senders.Totals.{HasStats, find_sender, aggregate_sender_stats-HasStats}
use briefed.Unsubscribe.Suggestions.{UnsubscribeSuggestion}
use briefed.Unsubscribe.Rank.{Runtime, RankInputs, State, rank_senders}
use briefed.Unsubscribe.Rank.Table.{RankEnds, rank_senders-RankEnds}
use briefed.Unsubscribe.Rank.Sent.{Sent, allowed_all, rank_senders-Sent}

abbrev runtime : Runtime
runtime = record {
  env = record { monotonic = λ step. step; today = λ step. 20; uniform = λ high step. high };
  validate = λ fields. elim fields [
    | no_fields ↦ none
    | field k v fs ↦ some (record {
      should_recommend = false;
      confidence = 700000;
      category = "newsletter";
      rationale = 110 ∷ [];
    })
  ];
  set_order = λ names. names;
  text_of = λ t. "sender";
  int_text = λ n. "5";
  two_decimals = λ n. "0.00";
  encode = λ s. 114 ∷ [];
  collate = λ a b. true;
}

abbrev provider : Provider
provider = record {
  name = "primary";
  complete_json = λ spec prompt step. ok (record {
    payload = field "category" (text "newsletter") no_fields;
    tokens_in = 300;
    tokens_out = 20;
    tokens_cache_read = 0;
    tokens_cache_write = 0;
    cost_usd = 400;
    latency_ms = 500;
    provider = "primary";
    model = "small";
  });
}

abbrev masking : Sanitizer
masking = record {
  sanitize = λ t. record { text = "masked"; reversal_map = []; counts_by_kind = [] };
}

abbrev prompt : PromptSpec
prompt = record {
  name = "unsubscribe_borderline";
  version = 1;
  content = "{{sender_email}}: {{criteria_hit}}";
  system = "";
  model = "small";
  temperature = 0;
  max_tokens = 256;
  cache_tier = "none";
  schema_ref = "UnsubscribeDecision";
  extras = no_fields;
}

abbrev inputs : RankInputs
inputs = record {
  user_id = "u1";
  account_id = "a1";
  llm = record {
    primary = provider;
    fallbacks = [];
    config = default_config;
    sanitizer = some masking;
  };
  prompt = prompt;
  prompt_version_id = "v1";
  repo = record { cipher = none; text_of = λ t. "sender"; dek = λ t. []; nonce = λ t. [] };
  run_id = none;
}

abbrev email : String → String → Email
email id from_addr = record {
  id = id;
  account_id = "a1";
  gmail_message_id = id;
  internal_date = 1000;
  from_addr = from_addr;
  subject = "Sale";
  snippet = "";
  labels = [];
  list_unsubscribe = none;
  content_hash = "h";
  plain_text_excerpt_ct = none;
}

abbrev emails : List Email
emails =
    email "e1" "Shop@x.org"
    ∷ email "e2" "shop@x.org "
    ∷ email "e3" "shop@x.org"
    ∷ email "e4" "shop@x.org"
    ∷ email "e5" "shop@x.org"
    ∷ email "e6" "list@y.org"
    ∷ []

abbrev labelled : String → String → Classification
labelled id label = record {
  email_id = id;
  label = label;
  score = 900;
  rubric_version = 0;
  prompt_version_id = none;
  decision_source = "model";
  model = "small";
  tokens_in = 0;
  tokens_out = 0;
  is_newsletter = false;
  needs_review = false;
  reasons_ct = none;
}

abbrev classifications : List Classification
classifications = labelled "e1" "waste" ∷ labelled "e2" "ignore" ∷ labelled "e6" "waste" ∷ []

abbrev accounts : List ConnectedAccount
accounts = record { id = "a1"; user_id = "u1"; status = "active"; auto_scan_enabled = true } ∷ []

abbrev silenced : UnsubscribeSuggestion
silenced = record {
  account_id = "a1";
  sender_email = codes "shop@x.org";
  sender_domain = codes "x.org";
  frequency_30d = 3;
  engagement_score = 0;
  waste_rate = 1000;
  list_unsubscribe = none;
  confidence = 900;
  decision_source = "rule";
  rationale_ct = [];
  prompt_version_id = none;
  model = "";
  tokens_in = 0;
  tokens_out = 0;
  last_email_at = 10;
  recent_subjects = [];
  dismissed = true;
  dismissed_at = some 20;
}

abbrev state : State
state = record {
  suggestions = silenced ∷ [];
  llm = record {
    step = 0;
    breakers = [];
    rate_caps = [];
    budget_guard = none;
    requests = [];
    delays = [];
    rows = [];
  };
}

abbrev stats_of : List SenderStats
stats_of = aggregate_sender_stats runtime.collate "a1" 2000 emails classifications

aggregate_sender_stats-HasStats_example :
    HasStats classifications
      (email_window "a1" 2000 emails)
      (order_rows runtime.collate (email_window "a1" 2000 emails))
      (codes "shop@x.org")
      (find_sender (codes "shop@x.org") stats_of)
aggregate_sender_stats-HasStats_example =
    aggregate_sender_stats-HasStats runtime.collate "a1" 2000 emails classifications
      (codes "shop@x.org")

abbrev shop : SenderStats
shop = record {
  sender_email = codes "shop@x.org";
  sender_domain = codes "x.org";
  frequency_30d = 5;
  positive_count = 0;
  waste_count = 2;
  classified_total = 2;
  engagement_score = 0;
  waste_rate = 1000;
  list_unsubscribe = none;
  last_email_at = 1000;
  recent_subjects = codes "Sale" ∷ codes "Sale" ∷ codes "Sale" ∷ codes "Sale" ∷ codes "Sale" ∷ [];
}

abbrev list : SenderStats
list = record {
  sender_email = codes "list@y.org";
  sender_domain = codes "y.org";
  frequency_30d = 1;
  positive_count = 0;
  waste_count = 1;
  classified_total = 1;
  engagement_score = 0;
  waste_rate = 1000;
  list_unsubscribe = none;
  last_email_at = 1000;
  recent_subjects = codes "Sale" ∷ [];
}

grouped : stats_of ≡ list ∷ shop ∷ []
unfolding aggregate_sender_stats
grouped = refl

shop_ratios : (ratio 0 2 ≡ 0) × (ratio 2 2 ≡ 1000)
unfolding ratio
shop_ratios = (refl, refl)

rank_senders-RankEnds_example :
    RankEnds runtime inputs stats_of accounts "a1"
      (codes "shop@x.org")
      state
      (rank_senders runtime inputs 2000 accounts emails classifications state)
rank_senders-RankEnds_example =
    rank_senders-RankEnds runtime inputs 2000 accounts emails classifications state "a1"
      (codes "shop@x.org")

rank_senders-Sent_example :
    Sent runtime inputs masking refl
      (allowed_all runtime inputs masking refl stats_of)
      state
      (rank_senders runtime inputs 2000 accounts emails classifications state)
rank_senders-Sent_example =
    rank_senders-Sent runtime inputs masking refl 2000 accounts emails classifications state

-- The shop's row stays dismissed, and the model's veto keeps the list's row at 0.200.
ranked :
    map {B = String × ℕ × Bool}
      (λ (r : UnsubscribeSuggestion). (r.decision_source, r.confidence, r.dismissed))
      (rank_senders runtime inputs 2000 accounts emails classifications state).1.suggestions
    ≡ ("rule", 900, true) ∷ ("model", 200, false) ∷ []
unfolding rank_senders render_prompt call check_budget active_sanitizer check_reidentify redact
    try_chain call_provider is_circuit_open is_capped attempt_loop send succeed fail prompt_to_send
    payload_of finish charge answer_row
ranked = refl
