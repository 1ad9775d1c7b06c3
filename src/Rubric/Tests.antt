-- ===== src/Rubric/Tests.antt =====
-- A newsletter from a known waste sender, and rules of two priorities.
use mathlib.Core.List.{Memᴰ}
use mathlib.Core.List.Memᴰ.{head, tail}
use briefed.Base.{ℕ, ◌<◌, ◌≡◌, refl, ap, [], ◌∷◌, true, false, none, some, arith}
use briefed.Base.Dict.{lookup}
use briefed.Base.Result.{ok}
use briefed.Mail.{EmailMessage}
use briefed.Rubric.Clauses.{
  null, leaf, text, number, flag, Python, match_predicate, all_clauses, check_clause,
  check_from_domain, check_subject_contains, truth, leaf_truth, str, leaf_str,
}
use briefed.Schedule.Slot.{strip}
use briefed.Rubric.Texts.{lower, contains, ends_with, equals, starts_with, needle_of}
use briefed.Rubric.Engine.{
  KnownWasteSender, RubricRule, RuleEngine, RuleDecision, evaluate, rule_matches, seed_matches,
  try_rule, rule_match, seed_match, decide, winner, is_less, label_priority, normalize_action_label,
  action_label, action_is_newsletter, action_confidence, action_reasons,
}
use briefed.Rubric.Verdict.{IsVerdict, evaluate-IsVerdict}

abbrev python : Python
python = record {
  str_of_number = λ n. "1";
  str_of_leaves = λ ls. "[]";
  str_of_fields = λ fs. "{}";
  search = λ pattern subject. none;
  float = λ l. elim l [ null ↦ none | flag b ↦ none | number n ↦ some n | text s ↦ none ];
}

abbrev email : EmailMessage
email = record {
  message_id = "m1";
  content_hash = "h1";
  from_email = "News@Shop.example";
  subject = "Big Sale";
  snippet = "";
  labels = [];
  list_unsubscribe = none;
}

abbrev shop : KnownWasteSender
shop = record { match = ("from_domain", leaf (text "shop.example")) ∷ []; reason = "" }

abbrev sale : ℕ → RubricRule
sale priority = record {
  id = "r1";
  priority = priority;
  match = ("subject_contains", leaf (text " SALE ")) ∷ [];
  action = ("label", leaf (text "must_read")) ∷ [];
  version = 3;
  active = true;
}

abbrev engine : ℕ → RuleEngine
engine priority = record { user_rules = sale priority ∷ []; seed_waste = shop ∷ [] }

abbrev ignored : RuleDecision
ignored = record {
  label = "ignore";
  confidence = 980;
  reasons = "seed:known-waste-sender" ∷ [];
  rubric_version = 0;
  rule_id = none;
  is_newsletter = false;
}

abbrev read : RuleDecision
read = record {
  label = "must_read";
  confidence = 900;
  reasons = "rule:r1" ∷ [];
  rubric_version = 3;
  rule_id = some "r1";
  is_newsletter = false;
}

matched :
    (match_predicate python email shop.match ≡ true)
    × (match_predicate python email (sale 5).match ≡ true)
unfolding match_predicate all_clauses check_clause check_from_domain check_subject_contains str
    leaf_str lower contains ends_with equals starts_with needle_of strip
matched = (refl, refl)

runs :
    (evaluate python (engine 100) email ≡ ok (some ignored))
    × (evaluate python (engine 20000) email ≡ ok (some read))
unfolding evaluate rule_matches seed_matches try_rule rule_match seed_match decide winner is_less
    label_priority normalize_action_label action_label action_is_newsletter action_confidence
    action_reasons truth leaf_truth lookup match_predicate all_clauses check_clause
    check_from_domain check_subject_contains str leaf_str lower contains ends_with equals
    starts_with needle_of strip
runs = (refl, refl)

evaluate-IsVerdict_example : IsVerdict python (engine 100) email (some ignored)
evaluate-IsVerdict_example = evaluate-IsVerdict python (engine 100) email (some ignored) runs.0

low :
    (rule : RubricRule)
    → Memᴰ rule (sale 100 ∷ [])
    → rule.active ≡ true
    → match_predicate python email rule.match ≡ true
    → rule.priority < 10000
low rule (head e) active matches = ground (arith, ap (λ (r : RubricRule). r.priority) e)
low rule (tail m) active matches = elim m [ ]
