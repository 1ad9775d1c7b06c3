-- ===== src/Runs.antt =====
-- backend/app/services/runs.py. A call runs in one transaction; the queues take every message, and the
-- log line of a finished run is left out.
pub mod Progress
mod Stages
pub mod Steps
pub mod Later
mod Work
pub mod Status
pub mod Finish
pub mod Once
mod Tests
use briefed.Base.{
  ℕ, ◌+◌, ◌≤◌, String, List, [], ◌∷◌, ◌++◌, Bool, true, false, not, ◌&&◌, ◌||◌, Option, none, some,
  is_some, any, filter, length, map, str_eq, ltb, leb, ◌==◌, take, if◌then◌else◌,
}
use briefed.Tables.{
  User, DigestRun, RunStats, Email, DigestRunEmail, ConnectedAccount, Claim, Db, save_user,
  save_run,
}
use briefed.Runs.Progress.{
  RunProgressSnapshot, contains, find_by, min_cluster_newsletters, pending_total, run_newsletters,
  missing_categories, progress_snapshot,
}

pub record CategoryDigestMessage : Type 0 where
  pub run_id : String
  pub category : String

pub record TechNewsClusterMessage : Type 0 where
  pub user_id : String
  pub run_id : String
  pub email_ids : List String

-- The tables, and the messages that were sent or built so far.
pub record State : Type 0 where
  pub db : Db
  pub digests : List CategoryDigestMessage
  pub clusters : List TechNewsClusterMessage

-- The optional senders, and the optional inline builder with what it does to the tables.
pub record Senders : Type 0 where
  pub category_digest_sender : Bool
  pub category_digest_builder : Option (CategoryDigestMessage → Db → Db)
  pub tech_news_cluster_sender : Bool

abbrev pub max_cluster_newsletters : ℕ
max_cluster_newsletters = 500

abbrev pub failed_run_error : String
failed_run_error = "One or more LLM provider calls failed during the scan."

abbrev pub find_run : String → Db → Option DigestRun
find_run id db = find_by (λ r. str_eq r.id id) db.runs

-- `INSERT ... SELECT ... WHERE digest_runs.id = run_id ON CONFLICT DO NOTHING RETURNING`
unfoldable pub claim : String → String → List DigestRun → List Claim → Bool × List Claim
claim run_id key runs claims =
    if not (any (λ r. str_eq r.id run_id) runs)
    then (false, claims)
    else if any (λ c. str_eq c.run_id run_id && str_eq c.claimed key) claims
    then (false, claims)
    else (true, claims ++ record { run_id = run_id; claimed = key } ∷ [])

unfoldable pub mark_run_running : Option String → Db → Db
mark_run_running none db = db
mark_run_running (some run_id) db = record db {
  runs =
      save_run run_id (λ r. if str_eq r.status "queued" then record r { status = "running" } else r)
        db.runs;
}

-- The ids that the run has not, each once and in order: `dict.fromkeys`, then the test on `existing`.
unfoldable pub new_members : String → List String → List DigestRunEmail → List DigestRunEmail
new_members run_id [] rows = []
new_members run_id (id ∷ ids) rows =
    let row : DigestRunEmail = record { run_id = run_id; email_id = id } in
    let has = any (λ m. str_eq m.run_id run_id && str_eq m.email_id id) rows in
    let rest = new_members run_id ids (if has then rows else row ∷ rows) in
    if has then rest else row ∷ rest

unfoldable pub stamp_run_membership : Option String → List String → Db → ℕ × Db
unfolding new_members
stamp_run_membership none email_ids db = (0, db)
stamp_run_membership (some run_id) email_ids db =
    let rows = new_members run_id email_ids db.run_emails in
    (length rows, record db { run_emails = db.run_emails ++ rows })

unfoldable pub mark_unsubscribe_hygiene_enqueued : Option String → String → Db → Bool × Db
unfolding claim
mark_unsubscribe_hygiene_enqueued none account_id db = (true, db)
mark_unsubscribe_hygiene_enqueued (some run_id) account_id db =
    let (won, claims) = claim run_id account_id db.runs db.hygiene_claims in
    (won, record db { hygiene_claims = claims })

-- `_account_scope`; the ids in the stats are those of accounts, so all of them parse.
unfoldable pub account_scope : Db → String → DigestRun → List String
account_scope db user_id run = elim run.stats.account_ids [
  | [] ↦
      map (λ a. a.id)
        (filter (λ a. str_eq a.user_id user_id && str_eq a.status "active" && a.auto_scan_enabled)
          db.accounts)
  | id ∷ ids ↦ id ∷ ids
]

-- `_stats_payload`
unfoldable pub stats_payload : List String → RunProgressSnapshot → RunStats
stats_payload account_ids snapshot = record {
  ingested = snapshot.ingested;
  classified = snapshot.classified;
  summarized = snapshot.summarized;
  new_must_read = snapshot.new_must_read;
  account_ids = account_ids;
}

-- The assignments of the progress to the run.
unfoldable pub with_progress : List String → RunProgressSnapshot → DigestRun → DigestRun
unfolding stats_payload
with_progress account_ids snapshot run = record run {
  stats = stats_payload account_ids snapshot;
  cost_cents = snapshot.cost_cents;
  status = if str_eq run.status "queued" then "running" else run.status;
}

-- `order_by(Email.internal_date.desc())`; the database leaves open what it does with equal dates.
unfoldable pub insert_newest : Email → List Email → List Email
insert_newest e [] = e ∷ []
insert_newest e (x ∷ xs) =
    let rest = insert_newest e xs in
    if leb x.internal_date e.internal_date then e ∷ x ∷ xs else x ∷ rest

unfoldable pub newest_first : List Email → List Email
unfolding insert_newest
newest_first [] = []
newest_first (e ∷ es) = insert_newest e (newest_first es)

-- `_claim_tech_news_cluster_dispatch`
unfoldable pub claim_cluster : ℕ → String → Db → Bool × Db
claim_cluster now run_id db = elim (find_run run_id db) [
  | none ↦ (false, db)
  | some r ↦ if is_some r.tech_news_cluster_enqueued_at then (false, db) else (
    true,
    record db {
      runs =
          save_run run_id (λ run. record run { tech_news_cluster_enqueued_at = some now }) db.runs;
    },
  )
]

-- `_dispatch_tech_news_cluster`
unfoldable pub dispatch_cluster : Senders → ℕ → DigestRun → List String → State → State
unfolding claim_cluster newest_first run_newsletters
dispatch_cluster senders now run account_ids s =
    let email_ids =
      map (λ e. e.id)
        (take max_cluster_newsletters (newest_first (run_newsletters s.db run.id account_ids))) in
    let (won, db) = claim_cluster now run.id s.db in
    if not senders.tech_news_cluster_sender
    then s
    else if ltb (length email_ids) min_cluster_newsletters
    then s
    else if won
    then record s {
      db = db;
      clusters =
          s.clusters
          ++ record { user_id = run.user_id; run_id = run.id; email_ids = email_ids } ∷ [];
    }
    else s

-- One category of the loop, once there is a dispatcher; the flag says whether it was built inline.
unfoldable pub dispatch_category : Senders → String → String → State → Bool × State
unfolding claim
dispatch_category senders run_id category s =
    let message : CategoryDigestMessage = record { run_id = run_id; category = category } in
    let (won, claims) = claim run_id category s.db.runs s.db.digest_claims in
    let claimed : Db = record s.db { digest_claims = claims } in
    let sent : State = record s { db = claimed; digests = s.digests ++ message ∷ [] } in
    if not won
    then (false, s)
    else if senders.category_digest_sender
    then (false, sent)
    else elim senders.category_digest_builder [
      | none ↦ (false, record s { db = claimed })
      | some build ↦ (true, record sent { db = build message claimed })
    ]

-- `_dispatch_missing_category_summaries`, over the missing categories.
unfoldable pub dispatch_categories : Senders → String → List String → State → Bool × State
dispatch_categories senders run_id [] s = (false, s)
dispatch_categories senders run_id (category ∷ categories) s =
    let (built, s1) =
      if not senders.category_digest_sender && not (is_some senders.category_digest_builder)
      then (false, s)
      else dispatch_category senders run_id category s in
    let (more, s2) = dispatch_categories senders run_id categories s1 in (built || more, s2)

-- `_finish_run`
unfoldable pub finish_run : ℕ → Bool → DigestRun → DigestRun
finish_run now failed run = record run {
  status = if failed then "failed" else "complete";
  completed_at = some now;
  error = if failed then some failed_run_error else none;
}

-- `_clear_user_lock`
unfoldable pub clear_user_lock : String → ℕ → Bool → User → User
clear_user_lock run_id now completed user = elim user.current_run_id [
  | none ↦ user
  | some held ↦
      if str_eq held run_id
      then record user {
        current_run_id = none;
        current_run_started_at = none;
        last_run_finished_at = if completed then some now else user.last_run_finished_at;
      }
      else user
]

-- The end of `maybe_finalize_run`, from the second assignment of the progress on.
unfoldable pub settle :
    ℕ → String → String → List String → RunProgressSnapshot → State → Bool × State
unfolding with_progress finish_run
settle now user_id run_id account_ids snapshot s =
    let runs = save_run run_id (with_progress account_ids snapshot) s.db.runs in
    let failed = ltb 0 snapshot.prompt_errors in
    if pending_total snapshot == 0
    then (
      true,
      record s {
        db = record s.db {
          runs = save_run run_id (finish_run now failed) runs;
          users = save_user user_id (clear_user_lock run_id now (not failed)) s.db.users;
        };
      },
    )
    else (false, record s { db = record s.db { runs = runs } })

-- The cluster job, once classification has drained.
unfoldable pub cluster_stage :
    Senders → ℕ → DigestRun → List String → RunProgressSnapshot → State → State
cluster_stage senders now run account_ids snapshot s =
    if (snapshot.pending_unclassified == 0) && not (snapshot.pending_clusters == 0)
    then dispatch_cluster senders now run account_ids s
    else s

-- The category digests, once the summaries have drained.
unfoldable pub category_stage :
    Senders → DigestRun → List String → RunProgressSnapshot → State → Bool × State
category_stage senders run account_ids snapshot s =
    if (snapshot.pending_unclassified == 0) && (snapshot.pending_summaries == 0)
    then dispatch_categories senders run.id (missing_categories s.db run.id account_ids) s
    else (false, s)

-- `maybe_finalize_run` for a run of the user that has not ended.
unfoldable pub finalize_run : Senders → ℕ → String → DigestRun → State → Bool × State
finalize_run senders now user_id run s =
    let account_ids = account_scope s.db user_id run in
    let snapshot = progress_snapshot s.db user_id run.id account_ids in
    let s1 : State = record s {
      db = record s.db { runs = save_run run.id (with_progress account_ids snapshot) s.db.runs };
    } in
    let s2 = cluster_stage senders now run account_ids snapshot s1 in
    let (built_inline, s3) = category_stage senders run account_ids snapshot s2 in
    settle now user_id run.id account_ids
      (if built_inline then progress_snapshot s3.db user_id run.id account_ids else snapshot) s3

abbrev pub is_terminal : DigestRun → Bool
is_terminal run = str_eq run.status "complete" || str_eq run.status "failed"

unfoldable pub maybe_finalize_run : Senders → ℕ → String → Option String → State → Bool × State
maybe_finalize_run senders now user_id none s = (false, s)
maybe_finalize_run senders now user_id (some run_id) s = elim (find_run run_id s.db) [
  | none ↦ (false, s)
  | some run ↦
      if not (str_eq run.user_id user_id) || is_terminal run
      then (false, s)
      else finalize_run senders now user_id run s
]
