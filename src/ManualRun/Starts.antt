-- ===== src/ManualRun/Starts.antt =====
-- What a request for a manual run does.
use briefed.Base.{◌⊎◌, ◌≡◌, String, List, [], ◌++◌, true, none, some, length, str_eq}
use briefed.Base.Result.{Result, ok, err}
use briefed.Tables.{User, ConnectedAccount, DigestRun, Email, save_user}
use briefed.Fanout.{with_lock, has_current_legal_consent}
use briefed.RateLimit.{Limiter, Refusal, check}
use briefed.Runs
use briefed.Runs.{Senders, find_run, stamp_run_membership, maybe_finalize_run}
use briefed.Runs.Progress.{find_by}
use briefed.Runs.Steps.{Steps}
use briefed.ManualRun.{
  Mode, incremental, reclassify_recent, ManualRunRequest, ManualRunResponse, RunError,
  user_not_found, legal_consent_required, account_not_found, limited, World, State, new_run,
  insert_run, ClassifyMessage, reclassify_targets, window_of,
}
use briefed.ManualRun.Selected.{Chooses, LacksOne}
use briefed.ManualRun.Effects.{ingest_for, messages_for}
use briefed.Runs.Later.{Later, find}

module _ (world : World) (user_id : String) (payload : ManualRunRequest) (s : State) where
  abbrev admission : Result Refusal (Unit {0}) × Limiter
  admission = check s.limiter user_id world.limiter_now

  -- The user has consented, and the limiter let the run through.
  pub record IsAllowed : Type 0 where
    pub user : User
    pub found : find_by (λ (u : User). str_eq u.id user_id) s.runs.db.users ≡ some user
    pub consented : has_current_legal_consent user ≡ true
    pub admitted : admission.0 ≡ ok tt

  -- The emails to classify again.
  abbrev targets_of : List ConnectedAccount → List Email
  targets_of accounts =
      reclassify_targets world user_id accounts (window_of payload.window_days)
        payload.include_user_overrides s.runs.db

  -- The messages for classification: none, or one for each of those emails.
  abbrev classify_for : Mode → List ConnectedAccount → List ClassifyMessage
  classify_for incremental accounts = []
  classify_for reclassify_recent accounts = messages_for world user_id (targets_of accounts)

  abbrev HasLock : State → Type 0
  HasLock t =
      t.runs.db.users
      ≡ save_user user_id (with_lock (some world.run_id) (some (world.now 0))) s.runs.db.users

  -- The user's lock is the run's, unless there is nothing to classify.
  abbrev StaysLocked : Mode → List ConnectedAccount → State → Type 0
  StaysLocked incremental accounts t = HasLock t
  StaysLocked reclassify_recent accounts t = HasLock t ⊎ (targets_of accounts ≡ [])

  pub record IsStarted (response : ManualRunResponse) (t : State) : Type 0 where
    pub allowed : IsAllowed
    pub limiter : t.limiter ≡ admission.1
    pub accounts : List ConnectedAccount
    pub chooses : Chooses user_id payload.account_ids s.runs.db.accounts accounts
    pub run_id : response.run_id ≡ world.run_id
    pub queued : response.accounts_queued ≡ length accounts
    pub ingest : t.ingest ≡ s.ingest ++ ingest_for world user_id payload.mode accounts
    pub classify : t.classify ≡ s.classify ++ classify_for payload.mode accounts
    pub on_record :
        (run : DigestRun) × (find world.run_id t.runs.db.runs ≡ some run)
        × Later (new_run world user_id accounts) run
    pub locked : StaysLocked payload.mode accounts t
    pub steps : Steps s.runs t.runs

  -- What holds at the end, by how it ends.
  abbrev pub StartEnds : Result RunError ManualRunResponse × State → Type 0
  StartEnds (ok response, t) = IsStarted response t
  StartEnds (err user_not_found, t) = t ≡ s
  StartEnds (err legal_consent_required, t) = t ≡ s
  StartEnds (err (limited e), t) = (admission.0 ≡ err e) × (t ≡ record s { limiter = admission.1 })
  StartEnds (err account_not_found, t) =
      IsAllowed
      × LacksOne user_id payload.account_ids s.runs.db.accounts
      × (t ≡ record s { limiter = admission.1 })

module _ (world : World) (user_id : String) (payload : ManualRunRequest) (s : State)
    (fresh : find_run world.run_id s.runs.db ≡ none) where
  -- The state after the limiter's check.
  abbrev checked : State
  checked = record s { limiter = (check s.limiter user_id world.limiter_now).1 }

  abbrev inserted : List ConnectedAccount → State
  inserted accounts = record checked {
    runs = record s.runs { db = insert_run world user_id accounts s.runs.db };
  }
