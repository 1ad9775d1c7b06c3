-- ===== src/Fanout.antt =====
-- backend/app/workers/handlers/fanout.py and has_current_legal_consent of backend/app/core/consent.py.
-- The tables are lists of rows; a row is saved by its primary key. A send can fail, which ends the
-- invocation with the rows committed so far; a failing database is not modelled. The counters of the
-- closing log line are left out, but for the count returned.
mod Steps
pub mod Sent
pub mod Complete
pub mod Lock
mod Tests
use briefed.Base.{
  ℕ, ◌+◌, ◌≤◌, String, List, [], ◌∷◌, ◌++◌, map, Bool, true, false, ◌&&◌, not, Option, none, some,
  filter, leb, str_eq, length, if◌then◌else◌,
}
use briefed.Tables.{User, ConnectedAccount, RunStats, DigestRun, Db, save_user}
use briefed.Schedule.{Zones, UserScheduleView, lock_stale_after, is_due}

pub record IngestMessage : Type 0 where
  pub user_id : String
  pub account_id : String
  pub run_id : String
  pub store_raw_mime : Bool

-- What the handler is given: the zones, the ids that `new_uuid` hands out, whether the queue takes
-- a message, by the messages taken before, and the fields of `FanoutDeps`.
pub record Deps : Type 0 where
  pub zones : Zones
  pub new_uuid : ℕ → String
  pub accepts : List IngestMessage → IngestMessage → Bool
  pub environment : String
  pub store_raw_mime : Bool

-- The invocation so far: the tables, the messages sent, the ids handed out, the count.
pub record State : Type 0 where
  pub db : Db
  pub sent : List IngestMessage
  pub ids : ℕ
  pub enqueued : ℕ

-- `CURRENT_PRIVACY_POLICY_VERSION` and `CURRENT_TERMS_VERSION`
abbrev current_privacy_policy_version : ℕ
current_privacy_policy_version = 1

abbrev current_terms_version : ℕ
current_terms_version = 1

unfoldable pub has_current_legal_consent : User → Bool
has_current_legal_consent user =
    leb current_privacy_policy_version user.privacy_policy_version_accepted
    && leb current_terms_version user.terms_version_accepted

-- `_schedule_view`
abbrev pub schedule_view : User → UserScheduleView
schedule_view user = record {
  schedule_frequency = user.schedule_frequency;
  schedule_times_local = user.schedule_times_local;
  schedule_timezone = user.schedule_timezone;
  last_run_finished_at = user.last_run_finished_at;
  current_run_id = user.current_run_id;
  current_run_started_at = user.current_run_started_at;
}

-- `_has_stale_lock`
unfoldable pub has_stale_lock : ℕ → User → Bool
has_stale_lock now user = elim user.current_run_id [
  | none ↦ false
  | some run_id ↦ elim user.current_run_started_at [
    | none ↦ true
    | some started ↦ leb (started + lock_stale_after) now
  ]
]

-- The fields that the handlers assign, and the save of a row by its key.
abbrev pub with_lock : Option String → Option ℕ → User → User
with_lock run_id started user = record user {
  current_run_id = run_id;
  current_run_started_at = started;
}

-- The first statement: the users that may be scheduled.
abbrev pub is_candidate : Deps → Option String → User → Bool
is_candidate deps user_id user =
    str_eq user.status "active"
    && str_eq user.environment deps.environment
    && not (str_eq user.schedule_frequency "disabled")
    && elim user_id [ none ↦ true | some id ↦ str_eq user.id id ]

-- The second statement: the user's accounts to scan.
abbrev pub is_scanned : User → ConnectedAccount → Bool
is_scanned user account =
    str_eq account.user_id user.id && str_eq account.status "active" && account.auto_scan_enabled

abbrev pub message_for : Deps → User → String → ConnectedAccount → IngestMessage
message_for deps user run_id account = record {
  user_id = user.id;
  account_id = account.id;
  run_id = run_id;
  store_raw_mime = deps.store_raw_mime;
}

-- The inner loop; the flag says whether it ended without an exception.
unfoldable pub send_messages : Deps → User → String → List ConnectedAccount → State → Bool × State
send_messages deps user run_id [] s = (true, s)
send_messages deps user run_id (account ∷ accounts) s =
    let message = message_for deps user run_id account in
    let s' : State = record s { sent = s.sent ++ message ∷ []; enqueued = s.enqueued + 1 } in
    let rest = send_messages deps user run_id accounts s' in
    if deps.accepts s.sent message then rest else (false, s)

-- The run's row and the lock, up to the commit.
unfoldable pub acquire : Deps → ℕ → User → List ConnectedAccount → State → State
acquire deps now user accounts s =
    let run_id = deps.new_uuid s.ids in
    record s {
      ids = s.ids + 1;
      db = record s.db {
        users = save_user user.id (with_lock (some run_id) (some now)) s.db.users;
        runs =
            s.db.runs
            ++ record {
              id = run_id;
              user_id = user.id;
              status = "queued";
              trigger_type = "scheduled";
              started_at = now;
              completed_at = none;
              stats = record {
                ingested = 0;
                classified = 0;
                summarized = 0;
                new_must_read = 0;
                account_ids = map (λ a. a.id) accounts;
              };
              cost_cents = 0;
              error = none;
              tech_news_cluster_enqueued_at = none;
            }
              ∷ [];
      };
    }

-- The body of the loop from `if not accounts` on.
unfoldable pub enqueue : Deps → ℕ → User → List ConnectedAccount → State → Bool × State
enqueue deps now user [] s = (true, s)
enqueue deps now user (a ∷ accounts) s =
    send_messages deps user (deps.new_uuid s.ids) (a ∷ accounts)
      (acquire deps now user (a ∷ accounts) s)

-- The body of the loop over the users.
unfoldable pub fan_out_user : Deps → ℕ → User → State → Bool × State
fan_out_user deps now user s =
    if not (has_current_legal_consent user)
    then (true, s)
    else if not (is_due deps.zones now (schedule_view user))
    then (true, s)
    else enqueue deps now user (filter (is_scanned user) s.db.accounts) s

unfoldable pub fan_out_users : Deps → ℕ → List User → State → Bool × State
fan_out_users deps now [] s = (true, s)
fan_out_users deps now (user ∷ users) s =
    let (completed, s') = fan_out_user deps now user s in
    let rest = fan_out_users deps now users s' in if completed then rest else (false, s')

unfoldable pub run_fanout : Deps → Option String → ℕ → Db → ℕ → Bool × State
run_fanout deps user_id now db ids =
    fan_out_users deps now (filter (is_candidate deps user_id) db.users)
      (record { db = db; sent = []; ids = ids; enqueued = 0 })

-- The end of a run `run_id` on the row that holds it; another row is left as it is.
unfoldable pub clear_lock : String → ℕ → User → User
clear_lock run_id now user = elim user.current_run_id [
  | none ↦ user
  | some held ↦
      if str_eq held run_id
      then record user {
        current_run_id = none;
        current_run_started_at = none;
        last_run_finished_at = some now;
      }
      else user
]

-- `release_user_lock`, at the time `now`.
unfoldable pub release_user_lock : String → String → ℕ → Db → Db
release_user_lock user_id run_id now db = record db {
  users = save_user user_id (clear_lock run_id now) db.users;
}
