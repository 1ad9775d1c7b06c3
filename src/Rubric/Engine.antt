-- ===== src/Rubric/Engine.antt =====
-- `RuleEngine` of backend/app/services/classification/rubric.py. An exception is a value.
use Prim.Native.String
use briefed.Base.{
  ℕ, String, List, [], ◌∷◌, ◌++◌, Bool, true, false, not, ◌&&◌, ◌||◌, Option, none, some, map, any,
  filter, ltb, str_eq, ◌==◌, if◌then◌else◌,
}
use briefed.Base.Dict.{Dict, lookup}
use briefed.Base.Result.{Result, ok, err}
use briefed.Mail.{EmailMessage}
use briefed.Rubric.Texts.{is_empty}
use briefed.Rubric.Clauses.{
  Leaf, Value, leaf, leaves, fields, null, flag, number, text, Python, truth, leaf_str, str,
  match_predicate,
}

pub record KnownWasteSender : Type 0 where
  pub match : Dict Value
  pub reason : String

pub record RubricRule : Type 0 where
  pub id : String
  pub priority : ℕ
  pub match : Dict Value
  pub action : Dict Value
  pub version : ℕ
  pub active : Bool

pub record RuleDecision : Type 0 where
  pub label : String
  pub confidence : ℕ
  pub reasons : List String
  pub rubric_version : ℕ
  pub rule_id : Option String
  pub is_newsletter : Bool

pub record RuleMatch : Type 0 where
  pub decision : RuleDecision
  pub priority : ℕ

-- `ValueError` on unknown keys, and the errors of `float` and of iterating over a value.
pub data EngineError : Type 0 where
  unknown_match_keys : List String → EngineError
  no_float : EngineError
  not_iterable : EngineError

abbrev allowed_match_keys : List String
allowed_match_keys =
    "from_domain" ∷ "from_email" ∷ "subject_contains" ∷ "subject_regex" ∷ "topic_keyword"
    ∷ "has_label" ∷ "list_unsubscribe_present" ∷ "header_equals" ∷ []

-- `_LABEL_PRIORITY.get(label, 0)`
unfoldable pub label_priority : String → ℕ
label_priority label =
    if str_eq label "must_read"
    then 60
    else if str_eq label "good_to_read"
    then 50
    else if str_eq label "ignore"
    then 40
    else 0

-- `_normalize_action_label`
unfoldable pub normalize_action_label : String → Bool → String × Bool
normalize_action_label label is_newsletter =
    if str_eq label "newsletter"
    then ("good_to_read", true)
    else if str_eq label "job_candidate"
    then ("good_to_read", is_newsletter)
    else if str_eq label "waste"
    then ("ignore", is_newsletter)
    else (label, is_newsletter)

-- The keys of `_validate_match_keys` that are not allowed, in the rule's order.
abbrev pub unknown_keys : Dict Value → List String
unknown_keys match =
    filter (λ k. not (any (str_eq k) allowed_match_keys))
      (map (λ (kv : String × Value). kv.0) match)

abbrev characters : String → List String
characters String.[] = []
characters (String.◌∷◌ c s) = String.◌∷◌ c String.[] ∷ characters s

-- The decision of a seed that matches.
unfoldable pub seed_match : KnownWasteSender → RuleMatch
seed_match seed = record {
  decision = record {
    label = "ignore";
    confidence = 980;
    reasons =
        (String.◌++◌ "seed:" (if str_eq seed.reason "" then "known-waste-sender" else seed.reason))
        ∷ [];
    rubric_version = 0;
    rule_id = none;
    is_newsletter = false;
  };
  priority = 10000;
}

module _ (python : Python) where
  -- `action.get("label") or "needs_review"`, as text
  unfoldable pub action_label : Dict Value → String
  unfolding truth str
  action_label action = elim (lookup "label" action) [
    | none ↦ "needs_review"
    | some v ↦ if truth v then str python v else "needs_review"
  ]

  -- `bool(action.get("is_newsletter", False))`
  unfoldable pub action_is_newsletter : Dict Value → Bool
  unfolding truth
  action_is_newsletter action = elim (lookup "is_newsletter" action) [
    | none ↦ false
    | some v ↦ truth v
  ]

  float_of : Value → Result EngineError ℕ
  float_of (leaf l) = elim (python.float l) [ none ↦ err no_float | some c ↦ ok c ]
  float_of (leaves ls) = err no_float
  float_of (fields fs) = err no_float

  -- `float(action.get("confidence", 0.9))`
  unfoldable pub action_confidence : Dict Value → Result EngineError ℕ
  unfolding float_of
  action_confidence action = elim (lookup "confidence" action) [
    | none ↦ ok 900
    | some v ↦ float_of v
  ]

  iterate : Value → Result EngineError (List String)
  iterate (leaf (text s)) = ok (characters s)
  iterate (leaf null) = err not_iterable
  iterate (leaf (flag b)) = err not_iterable
  iterate (leaf (number n)) = err not_iterable
  iterate (leaves ls) = ok (map (leaf_str python) ls)
  iterate (fields fs) = ok (map (λ (kv : String × Leaf). kv.0) fs)

  -- `tuple(str(r) for r in action.get("reasons") or [])`
  unfoldable pub action_reasons : Dict Value → Result EngineError (List String)
  unfolding truth iterate
  action_reasons action = elim (lookup "reasons" action) [
    | none ↦ ok []
    | some v ↦ if truth v then iterate v else ok []
  ]

  -- The candidate of a rule that matches.
  unfoldable pub rule_match : RubricRule → Result EngineError RuleMatch
  unfolding normalize_action_label action_label action_is_newsletter action_confidence
      action_reasons
  rule_match rule =
      let (label, is_newsletter) =
        normalize_action_label (action_label rule.action) (action_is_newsletter rule.action) in
      elim (action_confidence rule.action) [
        | err e ↦ err e
        | ok confidence ↦ elim (action_reasons rule.action) [
          | err e ↦ err e
          | ok reasons ↦ ok (record {
            decision = record {
              label = label;
              confidence = confidence;
              reasons = if is_empty reasons then (String.◌++◌ "rule:" rule.id) ∷ [] else reasons;
              rubric_version = rule.version;
              rule_id = some rule.id;
              is_newsletter = is_newsletter;
            };
            priority = rule.priority;
          })
        ]
      ]

  module _ (email : EmailMessage) where
    -- The loop over the seeds.
    unfoldable pub seed_matches : List KnownWasteSender → List RuleMatch
    seed_matches [] = []
    seed_matches (seed ∷ seeds) =
        let rest = seed_matches seeds in
        if match_predicate python email seed.match then seed_match seed ∷ rest else rest

    -- The body of the loop over the rules: the candidate, if there is one.
    unfoldable pub try_rule : RubricRule → Result EngineError (List RuleMatch)
    try_rule rule =
        if not rule.active
        then ok []
        else if not (is_empty (unknown_keys rule.match))
        then err (unknown_match_keys (unknown_keys rule.match))
        else if match_predicate python email rule.match
        then elim (rule_match rule) [ err e ↦ err e | ok m ↦ ok (m ∷ []) ]
        else ok []

    unfoldable pub rule_matches : List RubricRule → Result EngineError (List RuleMatch)
    rule_matches [] = ok []
    rule_matches (rule ∷ rules) =
        let rest = rule_matches rules in
        elim (try_rule rule) [
          | err e ↦ err e
          | ok found ↦ elim rest [ err e ↦ err e | ok more ↦ ok (found ++ more) ]
        ]

-- The order of the keys `(priority, label priority)`.
unfoldable pub is_less : RuleMatch → RuleMatch → Bool
is_less a b =
    ltb a.priority b.priority
    || ((a.priority == b.priority)
        && ltb (label_priority a.decision.label) (label_priority b.decision.label))

-- `max` over the candidates: the first of the greatest.
unfoldable pub winner : RuleMatch → List RuleMatch → RuleMatch
winner best [] = best
winner best (m ∷ ms) = let leader = if is_less best m then m else best in winner leader ms

unfoldable pub decide : List RuleMatch → Option RuleDecision
decide [] = none
decide (m ∷ ms) = some (winner m ms).decision

pub record RuleEngine : Type 0 where
  pub user_rules : List RubricRule
  pub seed_waste : List KnownWasteSender

unfoldable pub evaluate :
    Python → RuleEngine → EmailMessage → Result EngineError (Option RuleDecision)
evaluate python engine email = elim (rule_matches python email engine.user_rules) [
  | err e ↦ err e
  | ok rules ↦ ok (decide (seed_matches python email engine.seed_waste ++ rules))
]
