-- ===== src/Tables.antt =====
-- Rows of backend/app/db/models.py, with the columns that the services here read or write. The tables
-- are lists of rows; times are whole seconds, and costs micro-dollars.
use briefed.Base.{[], ◌∷◌, ℕ, String, List, Bool, Option, map, str_eq, if◌then◌else◌}
use briefed.Mail.{UnsubscribeInfo}

pub record User : Type 0 where
  pub id : String
  pub status : String
  pub environment : String
  pub privacy_policy_version_accepted : ℕ
  pub terms_version_accepted : ℕ
  pub schedule_frequency : String
  pub schedule_times_local : List String
  pub schedule_timezone : String
  pub last_run_finished_at : Option ℕ
  pub current_run_id : Option String
  pub current_run_started_at : Option ℕ

pub record ConnectedAccount : Type 0 where
  pub id : String
  pub user_id : String
  pub status : String
  pub auto_scan_enabled : Bool

-- The `stats` of a run, as every writer of them shapes them.
pub record RunStats : Type 0 where
  pub ingested : ℕ
  pub classified : ℕ
  pub summarized : ℕ
  pub new_must_read : ℕ
  pub account_ids : List String

pub record DigestRun : Type 0 where
  pub id : String
  pub user_id : String
  pub status : String
  pub trigger_type : String
  pub started_at : ℕ
  pub completed_at : Option ℕ
  pub stats : RunStats
  pub cost_cents : ℕ
  pub error : Option String
  pub tech_news_cluster_enqueued_at : Option ℕ

-- An email, with the excerpt of its content blob, which is `none` where it is `NULL` or has no blob.
pub record Email : Type 0 where
  pub id : String
  pub account_id : String
  pub gmail_message_id : String
  pub internal_date : ℕ
  pub from_addr : String
  pub subject : String
  pub snippet : String
  pub labels : List String
  pub list_unsubscribe : Option UnsubscribeInfo
  pub content_hash : String
  pub plain_text_excerpt_ct : Option (List ℕ)

pub record DigestRunEmail : Type 0 where
  pub run_id : String
  pub email_id : String

-- Scores are thousandths.
pub record Classification : Type 0 where
  pub email_id : String
  pub label : String
  pub score : ℕ
  pub rubric_version : ℕ
  pub prompt_version_id : Option String
  pub decision_source : String
  pub model : String
  pub tokens_in : ℕ
  pub tokens_out : ℕ
  pub is_newsletter : Bool
  pub needs_review : Bool
  pub reasons_ct : Option (List ℕ)

pub record Summary : Type 0 where
  pub kind : String
  pub email_id : Option String
  pub cluster_id : Option String
  pub run_id : Option String
  pub category : Option String

pub record TechNewsCluster : Type 0 where
  pub id : String
  pub user_id : String
  pub run_id : Option String

-- A row of `prompt_call_log`, with the name of its prompt version, which is `none` where the outer
-- join finds no version.
pub record PromptCallLog : Type 0 where
  pub prompt_name : Option String
  pub email_id : Option String
  pub run_id : Option String
  pub status : String
  pub cost_usd : ℕ

-- A claim: the run, and the account or the category.
pub record Claim : Type 0 where
  pub run_id : String
  pub claimed : String

pub record Db : Type 0 where
  pub users : List User
  pub accounts : List ConnectedAccount
  pub runs : List DigestRun
  pub emails : List Email
  pub run_emails : List DigestRunEmail
  pub classifications : List Classification
  pub summaries : List Summary
  pub clusters : List TechNewsCluster
  pub prompt_calls : List PromptCallLog
  pub hygiene_claims : List Claim
  pub digest_claims : List Claim

-- A row is saved by its primary key.
unfoldable pub save_user : String → (User → User) → List User → List User
save_user id change users = map (λ u. if str_eq u.id id then change u else u) users

unfoldable pub save_run : String → (DigestRun → DigestRun) → List DigestRun → List DigestRun
save_run id change [] = []
save_run id change (r ∷ runs) =
    let rest = save_run id change runs in if str_eq r.id id then change r ∷ runs else r ∷ rest
