-- ===== src/Runs/Progress.antt =====
-- `_progress_snapshot` and its counts, of backend/app/services/runs.py, and `unread_email_filter` of
-- services/email_labels.py. A join on a unique column looks up the one row.
use briefed.Base.{
  ℕ, ◌+◌, ◌/◌, String, List, [], ◌∷◌, Bool, true, false, not, ◌&&◌, ◌||◌, Option, none, some,
  is_some, any, filter, length, str_eq, ltb, if◌then◌else◌,
}
use briefed.Tables.{Email, DigestRunEmail, Classification, Summary, PromptCallLog, Db}

abbrev pub contains : List String → String → Bool
contains xs x = any (str_eq x) xs

-- `_SUMMARIZABLE_LABELS`, `_NEWSLETTER_LABEL` and `features.newsletter_clustering`, as in
-- packages/config/app_config.yml
abbrev pub summarizable_labels : List String
summarizable_labels = "must_read" ∷ "good_to_read" ∷ []

abbrev pub newsletter_label : String
newsletter_label = "newsletter"

abbrev pub non_fatal_prompt_names : List String
non_fatal_prompt_names = "unsubscribe_borderline" ∷ "category_digest" ∷ []

abbrev pub min_cluster_newsletters : ℕ
min_cluster_newsletters = 2

pub record RunProgressSnapshot : Type 0 where
  pub ingested : ℕ
  pub classified : ℕ
  pub summarized : ℕ
  pub new_must_read : ℕ
  pub pending_unclassified : ℕ
  pub pending_summaries : ℕ
  pub pending_clusters : ℕ
  pub pending_category_summaries : ℕ
  pub prompt_errors : ℕ
  pub cost_cents : ℕ

abbrev pub pending_total : RunProgressSnapshot → ℕ
pending_total s =
    s.pending_unclassified + s.pending_summaries + s.pending_clusters + s.pending_category_summaries

-- `column == value`, where a `NULL` equals nothing
abbrev pub is_value : String → Option String → Bool
is_value v none = false
is_value v (some w) = str_eq w v

abbrev pub find_by {ℓ} : {A : Type ℓ} → (A → Bool) → List A → Option A
find_by p [] = none
find_by p (x ∷ xs) = let rest = find_by p xs in if p x then some x else rest

unfoldable pub has_unread_label : List String → Bool
has_unread_label labels = contains labels "UNREAD"

-- The emails that a run's members join to, in scope.
unfoldable pub member_emails : List Email → String → List String → List DigestRunEmail → List Email
member_emails emails run_id account_ids [] = []
member_emails emails run_id account_ids (m ∷ ms) =
    let rest = member_emails emails run_id account_ids ms in
    if str_eq m.run_id run_id
    then elim (find_by (λ e. str_eq e.id m.email_id) emails) [
      | none ↦ rest
      | some e ↦ if contains account_ids e.account_id then e ∷ rest else rest
    ]
    else rest

abbrev pub is_fatal_name : Option String → Bool
is_fatal_name none = true
is_fatal_name (some name) = not (contains non_fatal_prompt_names name)

module _ (db : Db) where
  unfoldable pub classification_of : Email → Option Classification
  classification_of e = find_by (λ c. str_eq c.email_id e.id) db.classifications

  -- The classification meets the test.
  abbrev pub is_classified : (Classification → Bool) → Email → Bool
  is_classified p e = elim (classification_of e) [ none ↦ false | some c ↦ p c ]

  unfoldable pub has_summary : Email → Bool
  has_summary e = any (λ s. is_value e.id s.email_id) db.summaries

  unfoldable pub has_email_summary : Email → Bool
  has_email_summary e = any (λ s. str_eq s.kind "email" && is_value e.id s.email_id) db.summaries

  -- `fatal_error`, for one email of the run
  unfoldable pub has_fatal_error : String → Email → Bool
  has_fatal_error run_id e =
      any
        (λ p.
          is_value run_id p.run_id
          && is_value e.id p.email_id
          && str_eq p.status "error"
          && is_fatal_name p.prompt_name)
        db.prompt_calls

  unfoldable pub is_pending_summary : String → Email → Bool
  unfolding has_unread_label has_summary has_fatal_error classification_of
  is_pending_summary run_id e =
      has_unread_label e.labels
      && is_classified (λ c. contains summarizable_labels c.label || c.is_newsletter) e
      && not (has_summary e)
      && not (has_fatal_error run_id e)

  unfoldable pub is_unclassified : Email → Bool
  unfolding has_unread_label classification_of
  is_unclassified e = has_unread_label e.labels && not (is_some (classification_of e))

  -- `_run_newsletters_query`
  unfoldable pub run_newsletters : String → List String → List Email
  unfolding has_unread_label classification_of member_emails
  run_newsletters run_id account_ids =
      filter
        (λ e.
          has_unread_label e.labels
          && is_classified (λ c. str_eq c.label newsletter_label || c.is_newsletter) e)
        (member_emails db.emails run_id account_ids db.run_emails)

  -- A cluster of the run and the user that a summary of the kind belongs to.
  unfoldable pub is_cluster_summary : String → String → Summary → Bool
  is_cluster_summary user_id run_id s =
      str_eq s.kind "tech_news_cluster"
      && any
          (λ c. is_value c.id s.cluster_id && str_eq c.user_id user_id && is_value run_id c.run_id)
          db.clusters

  -- A failed call of the cluster prompt, for no one email.
  unfoldable pub is_cluster_failure : String → PromptCallLog → Bool
  is_cluster_failure run_id p =
      is_value run_id p.run_id
      && not (is_some p.email_id)
      && str_eq p.status "error"
      && elim p.prompt_name [ none ↦ true | some name ↦ str_eq name "newsletter_group" ]

  unfoldable pub pending_clusters_of : String → String → List String → ℕ
  unfolding run_newsletters is_cluster_failure is_cluster_summary
  pending_clusters_of user_id run_id account_ids =
      if ltb (length (run_newsletters run_id account_ids)) min_cluster_newsletters
      then 0
      else if any (is_cluster_failure run_id) db.prompt_calls
      then 0
      else if any (is_cluster_summary user_id run_id) db.summaries
      then 0
      else 1

  -- A category with a summarized email of the run, unread.
  unfoldable pub is_non_empty_category : String → List String → String → Bool
  unfolding has_unread_label classification_of has_email_summary member_emails
  is_non_empty_category run_id account_ids category =
      any
        (λ e.
          has_unread_label e.labels
          && is_classified (λ c. str_eq c.label category) e
          && has_email_summary e)
        (member_emails db.emails run_id account_ids db.run_emails)

  unfoldable pub has_digest : String → String → Bool
  has_digest run_id category =
      any
        (λ s.
          str_eq s.kind "category_digest"
          && is_value run_id s.run_id
          && is_value category s.category)
        db.summaries

  -- `_missing_category_digest_categories`
  unfoldable pub missing_categories : String → List String → List String
  unfolding is_non_empty_category has_digest
  missing_categories run_id [] = []
  missing_categories run_id (a ∷ ids) =
      filter
        (λ category.
          is_non_empty_category run_id (a ∷ ids) category && not (has_digest run_id category))
        summarizable_labels

  unfoldable pub prompt_errors_of : String → ℕ
  prompt_errors_of run_id = length (
      filter
        (λ p. is_value run_id p.run_id && str_eq p.status "error" && is_fatal_name p.prompt_name)
        db.prompt_calls)

  unfoldable pub total_cost : String → List PromptCallLog → ℕ
  total_cost run_id [] = 0
  total_cost run_id (p ∷ ps) =
      let rest = total_cost run_id ps in
      if is_value run_id p.run_id then p.cost_usd + rest else rest

  -- `_cost_cents`: a cent is ten thousand micro-dollars, and a half is rounded up.
  unfoldable pub cost_cents_of : String → ℕ
  unfolding total_cost
  cost_cents_of run_id = (total_cost run_id db.prompt_calls + 5000) / 10000

  -- `_summarized_since`
  unfoldable pub summarized_since : String → String → List String → ℕ
  unfolding has_email_summary is_cluster_summary member_emails
  summarized_since user_id run_id account_ids =
      length (filter has_email_summary (member_emails db.emails run_id account_ids db.run_emails))
      + length (filter (is_cluster_summary user_id run_id) db.summaries)

  unfoldable pub progress_snapshot : String → String → List String → RunProgressSnapshot
  progress_snapshot user_id run_id [] = record {
    ingested = 0;
    classified = 0;
    summarized = 0;
    new_must_read = 0;
    pending_unclassified = 0;
    pending_summaries = 0;
    pending_clusters = 0;
    pending_category_summaries = 0;
    prompt_errors = prompt_errors_of run_id;
    cost_cents = cost_cents_of run_id;
  }
  progress_snapshot user_id run_id (a ∷ ids) =
      let members = member_emails db.emails run_id (a ∷ ids) db.run_emails in
      record {
        ingested = length members;
        classified = length (filter (is_classified (λ c. true)) members);
        summarized = summarized_since user_id run_id (a ∷ ids);
        new_must_read = length (filter (is_classified (λ c. str_eq c.label "must_read")) members);
        pending_unclassified = length (filter is_unclassified members);
        pending_summaries = length (filter (is_pending_summary run_id) members);
        pending_clusters = pending_clusters_of user_id run_id (a ∷ ids);
        pending_category_summaries = length (missing_categories run_id (a ∷ ids));
        prompt_errors = prompt_errors_of run_id;
        cost_cents = cost_cents_of run_id;
      }
