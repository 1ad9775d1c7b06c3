-- ===== src/ManualRun.antt =====
-- `start_manual_run` of backend/app/api/v1/frontend.py, with `enforce_legal_consent` of core/consent.py
-- and `enforce_manual_run` of core/rate_limit.py. The request is one transaction; the queues that are
-- configured take every message. An exception rolls the tables back, but not the limiter.
mod Effects
mod Selected
pub mod Starts
mod Tests
use briefed.Base.{
  ℕ, ◌+◌, ◌*◌, String, List, [], ◌∷◌, ◌++◌, Bool, true, false, not, ◌&&◌, ◌||◌, Option, none, some,
  any, filter, map, length, leb, str_eq, ◌==◌, if◌then◌else◌,
}
use briefed.Base.Result.{Result, ok, err}
use briefed.Tables.{User, ConnectedAccount, DigestRun, Email, Classification, Db, save_user}
use briefed.Fanout.{IngestMessage, has_current_legal_consent, with_lock}
use briefed.RateLimit.{Limiter, Refusal, check}
use briefed.Runs
use briefed.Runs.{Senders, stamp_run_membership, maybe_finalize_run, newest_first}
use briefed.Runs.Progress.{contains, find_by}

pub data Mode : Type 0 where
  incremental reclassify_recent : Mode

pub record ManualRunRequest : Type 0 where
  pub account_ids : Option (List String)
  pub mode : Mode
  pub window_days : Option ℕ
  pub include_user_overrides : Bool

pub record ManualRunResponse : Type 0 where
  pub run_id : String
  pub accounts_queued : ℕ

pub record ClassifyMessage : Type 0 where
  pub user_id : String
  pub account_id : String
  pub email_id : String
  pub run_id : String

-- The exceptions: 404, 451, the limiter's, and 404 for an account.
pub data RunError : Type 0 where
  user_not_found legal_consent_required account_not_found : RunError
  limited : Refusal → RunError

-- The id of the new row, the successive readings of the clock in seconds, the limiter's own reading in
-- microseconds, and whether the two queues are configured.
pub record World : Type 0 where
  pub run_id : String
  pub now : ℕ → ℕ
  pub limiter_now : ℕ
  pub has_ingest_queue : Bool
  pub has_classify_queue : Bool

pub record State : Type 0 where
  pub limiter : Limiter
  pub runs : Runs.State
  pub ingest : List IngestMessage
  pub classify : List ClassifyMessage

-- `scan.lookback_days` of packages/config/app_config.yml
abbrev pub lookback_days : ℕ
lookback_days = 14

abbrev pub seconds_per_day : ℕ
seconds_per_day = 86400

abbrev pub no_senders : Senders
no_senders = record {
  category_digest_sender = false;
  category_digest_builder = none;
  tech_news_cluster_sender = false;
}

-- `len(set(ids))`
abbrev pub count_distinct : List String → ℕ
count_distinct [] = 0
count_distinct (x ∷ xs) =
    let rest = count_distinct xs in if any (str_eq x) xs then rest else 1 + rest

abbrev pub is_selectable : String → ConnectedAccount → Bool
is_selectable user_id a =
    str_eq a.user_id user_id && str_eq a.status "active" && a.auto_scan_enabled

-- `_selected_accounts`; an empty tuple selects all, as no tuple does.
unfoldable pub selected_accounts :
    String → Option (List String) → List ConnectedAccount → Result RunError (List ConnectedAccount)
selected_accounts user_id none accounts = ok (filter (is_selectable user_id) accounts)
selected_accounts user_id (some []) accounts = ok (filter (is_selectable user_id) accounts)
selected_accounts user_id (some (id ∷ ids)) accounts =
    let rows = filter (λ a. is_selectable user_id a && contains (id ∷ ids) a.id) accounts in
    if length rows == count_distinct (id ∷ ids) then ok rows else err account_not_found

unfoldable pub new_run : World → String → List ConnectedAccount → DigestRun
new_run world user_id accounts = record {
  id = world.run_id;
  user_id = user_id;
  status = "queued";
  trigger_type = "manual";
  started_at = world.now 0;
  completed_at = none;
  stats = record {
    ingested = 0;
    classified = 0;
    summarized = 0;
    new_must_read = 0;
    account_ids = map (λ a. a.id) accounts;
  };
  cost_cents = 0;
  error = none;
  tech_news_cluster_enqueued_at = none;
}

-- The new row and `_acquire_user_lock`
unfoldable pub insert_run : World → String → List ConnectedAccount → Db → Db
unfolding new_run
insert_run world user_id accounts db = record db {
  runs = db.runs ++ new_run world user_id accounts ∷ [];
  users = save_user user_id (with_lock (some world.run_id) (some (world.now 0))) db.users;
}

abbrev pub ingest_message : World → String → ConnectedAccount → IngestMessage
ingest_message world user_id a = record {
  user_id = user_id;
  account_id = a.id;
  run_id = world.run_id;
  store_raw_mime = false;
}

-- `_enqueue_ingest_messages`
unfoldable pub enqueue_ingest : World → String → List ConnectedAccount → State → State
enqueue_ingest world user_id accounts s =
    if world.has_ingest_queue
    then record s { ingest = s.ingest ++ map (ingest_message world user_id) accounts }
    else s

-- The rows that the user has not labelled.
unfoldable pub is_not_override : Db → Email → Bool
is_not_override db e = elim (find_by (λ c. str_eq c.email_id e.id) db.classifications) [
  | none ↦ true
  | some c ↦ not (str_eq c.model "user_override")
]

-- `_reclassify_targets`
unfoldable pub reclassify_targets :
    World → String → List ConnectedAccount → ℕ → Bool → Db → List Email
unfolding is_not_override newest_first
reclassify_targets world user_id accounts window_days include_user_overrides db = newest_first (
    filter
      (λ e.
        any (λ a. str_eq a.id e.account_id && str_eq a.user_id user_id) db.accounts
        && any (λ a. str_eq a.id e.account_id) accounts
        && leb (world.now 1) (e.internal_date + window_days * seconds_per_day)
        && (include_user_overrides || is_not_override db e))
      db.emails)

abbrev pub classify_message : World → String → Email → ClassifyMessage
classify_message world user_id e = record {
  user_id = user_id;
  account_id = e.account_id;
  email_id = e.id;
  run_id = world.run_id;
}

-- `_enqueue_reclassify_messages`
unfoldable pub enqueue_reclassify : World → String → List Email → State → State
enqueue_reclassify world user_id targets s =
    if world.has_classify_queue
    then record s { classify = s.classify ++ map (classify_message world user_id) targets }
    else s

-- `payload.window_days or` the configured number of days
abbrev pub window_of : Option ℕ → ℕ
window_of none = lookback_days
window_of (some days) = if days == 0 then lookback_days else days

-- The branch of a reclassification.
unfoldable pub reclassify :
    World → String → ManualRunRequest → List ConnectedAccount → State → State
unfolding reclassify_targets stamp_run_membership enqueue_reclassify maybe_finalize_run
reclassify world user_id payload accounts s =
    let targets =
      reclassify_targets world user_id accounts (window_of payload.window_days)
        payload.include_user_overrides s.runs.db in
    let stamped : Runs.State = record s.runs {
      db = (stamp_run_membership (some world.run_id) (map (λ e. e.id) targets) s.runs.db).1;
    } in
    let sent = enqueue_reclassify world user_id targets (record s { runs = stamped }) in
    elim targets [
      | [] ↦ record sent {
        runs = (maybe_finalize_run no_senders (world.now 2) user_id (some world.run_id) stamped).1;
      }
      | e ∷ es ↦ sent
    ]

-- From the selection of the accounts on.
unfoldable pub start_run :
    World → String → ManualRunRequest → State → Result RunError ManualRunResponse × State
unfolding selected_accounts insert_run enqueue_ingest reclassify
start_run world user_id payload s =
    elim (selected_accounts user_id payload.account_ids s.runs.db.accounts) [
      | err e ↦ (err e, s)
      | ok accounts ↦
          let s1 : State = record s {
            runs = record s.runs { db = insert_run world user_id accounts s.runs.db };
          } in
          (
            ok (record { run_id = world.run_id; accounts_queued = length accounts }),
            elim payload.mode [
              | incremental ↦ enqueue_ingest world user_id accounts s1
              | reclassify_recent ↦ reclassify world user_id payload accounts s1
            ],
          )
    ]

unfoldable pub start_manual_run :
    World → String → ManualRunRequest → State → Result RunError ManualRunResponse × State
unfolding start_run has_current_legal_consent check
start_manual_run world user_id payload s =
    elim (find_by (λ (u : User). str_eq u.id user_id) s.runs.db.users) [
      | none ↦ (err user_not_found, s)
      | some user ↦
          if not (has_current_legal_consent user)
          then (err legal_consent_required, s)
          else (let (admitted, limiter) = check s.limiter user_id world.limiter_now in
              let s1 : State = record s { limiter = limiter } in
              elim admitted [
                | err e ↦ (err (limited e), s1)
                | ok _ ↦ start_run world user_id payload s1
              ])
    ]
