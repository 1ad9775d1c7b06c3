-- ===== src/Runs/Tests.antt =====
-- Runs of backend/app/services/runs.py by example, with an inline builder that inserts the digest.
use briefed.Base.{ℕ, ◌≡◌, refl, String, [], ◌∷◌, ◌++◌, true, false, none, some, length, ◌≤◌}
use briefed.Tables.{User, RunStats, DigestRun, Email, Classification, Summary, Db, save_run}
use briefed.Runs.Progress
use briefed.Runs.{
  CategoryDigestMessage, State, Senders, find_run, account_scope, mark_run_running,
  maybe_finalize_run, finalize_run, settle, with_progress, finish_run, cluster_stage,
  category_stage, dispatch_category, dispatch_categories,
}
use briefed.Runs.Finish.{KeepsRuns, Settled, maybe_finalize_run-Settled}
use briefed.Runs.Steps.{KeepsClaims, Steps, marked, finalized, done, then_step}
use briefed.Runs.Once.{digests_for, digests_for-le-one}
use briefed.Runs.Later.{Later}
use briefed.Runs.Status.{Steps-Later}

abbrev no_stats : RunStats
no_stats = record {
  ingested = 0;
  classified = 0;
  summarized = 0;
  new_must_read = 0;
  account_ids = [];
}

abbrev morning : DigestRun
morning = record {
  id = "r1";
  user_id = "u1";
  status = "queued";
  trigger_type = "manual";
  started_at = 100;
  completed_at = none;
  stats = no_stats;
  cost_cents = 0;
  error = none;
  tech_news_cluster_enqueued_at = none;
}

abbrev ana : User
ana = record {
  id = "u1";
  status = "active";
  environment = "prod";
  privacy_policy_version_accepted = 1;
  terms_version_accepted = 1;
  schedule_frequency = "once_daily";
  schedule_times_local = "08:00" ∷ [];
  schedule_timezone = "UTC";
  last_run_finished_at = none;
  current_run_id = some "r1";
  current_run_started_at = some 100;
}

abbrev unread : String → ℕ → Email
unread id date = record {
  id = id;
  account_id = "a1";
  gmail_message_id = id;
  internal_date = date;
  from_addr = "news@x.org";
  subject = "Hello";
  snippet = "";
  labels = "UNREAD" ∷ [];
  list_unsubscribe = none;
  content_hash = "h";
  plain_text_excerpt_ct = none;
}

abbrev labelled : String → String → Classification
labelled id label = record {
  email_id = id;
  label = label;
  score = 900;
  rubric_version = 1;
  prompt_version_id = none;
  decision_source = "rule";
  model = "";
  tokens_in = 0;
  tokens_out = 0;
  is_newsletter = false;
  needs_review = false;
  reasons_ct = none;
}

abbrev summary_of : String → Summary
summary_of id = record {
  kind = "email";
  email_id = some id;
  cluster_id = none;
  run_id = none;
  category = none;
}

abbrev tables : Db
tables = record {
  users = ana ∷ [];
  accounts = record { id = "a1"; user_id = "u1"; status = "active"; auto_scan_enabled = true } ∷ [];
  runs = morning ∷ [];
  emails = unread "e1" 10 ∷ unread "e2" 20 ∷ [];
  run_emails = [];
  classifications = labelled "e1" "must_read" ∷ labelled "e2" "waste" ∷ [];
  summaries = summary_of "e1" ∷ [];
  clusters = [];
  prompt_calls = [];
  hygiene_claims = [];
  digest_claims = [];
}

abbrev idle : State
idle = record { db = tables; digests = []; clusters = [] }

abbrev inline_digest : CategoryDigestMessage → Db → Db
inline_digest message db = record db {
  summaries =
      db.summaries
      ++ record {
        kind = "category_digest";
        email_id = none;
        cluster_id = none;
        run_id = some message.run_id;
        category = some message.category;
      }
        ∷ [];
}

abbrev inline : Senders
inline = record {
  category_digest_sender = false;
  category_digest_builder = some inline_digest;
  tech_news_cluster_sender = true;
}

abbrev joined : State
joined = record idle {
  db = record tables {
    run_emails =
        record { run_id = "r1"; email_id = "e1" } ∷ record { run_id = "r1"; email_id = "e2" } ∷ [];
  };
}

inline_builds :
    (build : CategoryDigestMessage → Db → Db)
    → inline.category_digest_builder ≡ some build
    → build ≡ inline_digest
inline_builds build e = cc

inline-KeepsRuns : KeepsRuns inline
inline-KeepsRuns build e message db = rw (inline_builds build e) refl

inline-KeepsClaims : KeepsClaims inline
inline-KeepsClaims build e message db = rw (inline_builds build e) (refl, refl)

-- The summary is there, so the digest of `must_read` is built inline, and the run ends.
joined_finishes : (maybe_finalize_run inline 900 "u1" (some "r1") joined).0 ≡ true
unfolding maybe_finalize_run finalize_run settle with_progress finish_run cluster_stage
    category_stage account_scope dispatch_category dispatch_categories Progress.progress_snapshot
    Progress.missing_categories Progress.pending_clusters_of Progress.is_unclassified
    Progress.is_pending_summary save_run
joined_finishes = refl

maybe_finalize_run-Settled_example :
    Settled 900 "u1" "r1"
      (account_scope joined.db "u1" morning)
      (maybe_finalize_run inline 900 "u1" (some "r1") joined)
maybe_finalize_run-Settled_example =
    maybe_finalize_run-Settled inline 900 morning joined inline-KeepsRuns refl refl

abbrev worked_on : State
worked_on =
    (maybe_finalize_run inline 900 "u1" (some "r1")
      (record joined { db = mark_run_running (some "r1") joined.db })).1

worked-Steps : Steps joined worked_on
worked-Steps =
    then_step (then_step done (marked (some "r1")))
      (finalized inline inline-KeepsClaims 900 "u1" (some "r1"))

digests_for-le-one_example : length (digests_for "r1" "must_read" worked_on.digests) ≤ 1
digests_for-le-one_example = digests_for-le-one "r1" "must_read" joined worked_on refl worked-Steps

Steps-Later_example : (r : DigestRun) × (find_run "r1" worked_on.db ≡ some r) × Later morning r
Steps-Later_example = Steps-Later joined worked_on worked-Steps "r1" morning refl
